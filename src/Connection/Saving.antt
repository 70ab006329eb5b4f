-- ===== src/Connection/Saving.antt =====
-- What is saved of a form.
use dbtabase_workbench.Common.{
  ℕ, ◌≤◌, ◌≡◌, sym, subst, Bool, true, false, not, ◌&&◌, Option, none, some, List, [], ◌++◌, Text,
  truthy, trim, arith,
}
use dbtabase_workbench.Connection.{
  ConnectionFormValue, TeamSummary, SaveInput, SavedConnection, saved, is_ssh, is_team,
  is_valid_kind_driver, manages_team, check, is_port, port_or_zero, raw_port, wrong_fields,
  saved_connection, saved_secret, name_field, host_field, driver_field, team_field,
  passphrase_field, credentials_field, port_field, to_save_input,
}

-- A connection that the server accepts: it has a name and a host, its driver fits its kind, and
-- its port is one.
abbrev pub IsSaved : List TeamSummary → ConnectionFormValue → SavedConnection → Type 0
IsSaved teams value c =
    (truthy c.name ≡ true)
    × (truthy c.host ≡ true)
    × (is_valid_kind_driver c.kind c.driver ≡ true)
    × (1 ≤ c.port)
    × (c.port ≤ 65535)
    × ((is_team c.scope && not (manages_team teams value.team_id)) ≡ false)

abbrev pub is_missing {ℓ} : {A : Type ℓ} → Option A → Bool
is_missing none = true
is_missing (some a) = false

port_bounds :
    (n : Option ℕ) → not (is_port n) ≡ false → (1 ≤ port_or_zero n) × (port_or_zero n ≤ 65535)
port_bounds none h = ground arith
port_bounds (some n) h = ground arith

stored_secret :
    (value : ConnectionFormValue) (existing_secret : Bool)
    → (is_ssh value.kind
        && not (truthy (trim value.password))
        && not (truthy (trim value.private_key))
        && not existing_secret)
      ≡ false
    → (is_ssh value.kind && not existing_secret && is_missing (saved_secret value)) ≡ false
unfolding saved_secret
stored_secret value existing_secret h = ground arith

not-false : (b : Bool) → not b ≡ false → b ≡ true
not-false b h = ground arith

none_wrong :
    (a b c d e f g : Bool)
    → check a name_field
        ++ check b host_field
        ++ check c driver_field
        ++ check d team_field
        ++ check e passphrase_field
        ++ check f credentials_field
        ++ check g port_field
      ≡ []
    → (a ≡ false)
      × (b ≡ false)
      × (c ≡ false)
      × (d ≡ false)
      × (e ≡ false)
      × (f ≡ false)
      × (g ≡ false)
none_wrong a b c d e f g h = ground arith

saved_input :
    (number : Text → Option ℕ) (value : ConnectionFormValue) (teams : List TeamSummary)
    (existing_secret : Bool) {input : SaveInput}
    → to_save_input number value teams existing_secret ≡ saved input
    → (wrong_fields number value teams existing_secret ≡ [])
      × (input ≡ record { connection = saved_connection number value; secret = saved_secret value })
unfolding to_save_input
saved_input number value teams existing_secret h = ground arith

-- A form that is saved has a name, a host, a driver that fits its kind and a port from 1 to 65535,
-- and if it belongs to a team, then to one that the user manages; an SSH connection without a
-- stored secret has one to store.
pub to_save_input-IsSaved :
    (number : Text → Option ℕ) (value : ConnectionFormValue) (teams : List TeamSummary)
    (existing_secret : Bool) {input : SaveInput}
    → to_save_input number value teams existing_secret ≡ saved input
    → IsSaved teams value input.connection
      × ((is_ssh value.kind && not existing_secret && is_missing input.secret) ≡ false)
unfolding wrong_fields saved_connection
to_save_input-IsSaved number value teams existing_secret {input} h =
    let (none_are, e) = saved_input number value teams existing_secret h in
    let (a, b, c, d, e', f, g) = none_wrong _ _ _ _ _ _ _ none_are in
    subst
      (λ i.
        IsSaved teams value i.connection
        × ((is_ssh value.kind && not existing_secret && is_missing i.secret) ≡ false))
      (sym e)
      (
        (
          not-false _ a,
          not-false _ b,
          not-false _ c,
          (port_bounds (number (raw_port value)) g).0,
          (port_bounds (number (raw_port value)) g).1,
          d,
        ),
        stored_secret value existing_secret f,
      )
