-- ===== src/Connection/Fields/Ready.antt =====
-- What a connection that passes the check is ready for.
use dbtabase_workbench.Common.{
  ℕ, ◌≤◌, ◌≡◌, true, false, not, ◌&&◌, Option, none, Text, truthy, arith,
}
use dbtabase_workbench.Connection.Fields.{
  ConnectionInput, driver_form_spec, normalize_connection_input, validate_connection_input,
  connection_needs_stored_password,
}

-- If the check finds no error, the normalized input names a host and a database, its port is from 1
-- to 65535, and a driver that needs a password has one, and a user.
pub validate_connection_input-ready :
    (number : Text → Option ℕ) (input : ConnectionInput)
    → validate_connection_input number input ≡ none
    → (truthy (normalize_connection_input input).host ≡ true)
      × (truthy (normalize_connection_input input).database ≡ true)
      × (1 ≤ (normalize_connection_input input).port)
      × ((normalize_connection_input input).port ≤ 65535)
      × ((connection_needs_stored_password input.driver
            && not (
                truthy (normalize_connection_input input).user
                && truthy (normalize_connection_input input).password))
          ≡ false)
unfolding validate_connection_input normalize_connection_input driver_form_spec
    connection_needs_stored_password
validate_connection_input-ready number input h = ground arith
