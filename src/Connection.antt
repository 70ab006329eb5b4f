-- ===== src/Connection.antt =====
-- The form of a saved connection: web/src/connections/connectionForm.ts and the types of
-- web/src/connections/types.ts, with the target that the workbench opens for it
-- (web/src/features/database/connectionAdapter.ts). A port is read by `Number`, which belongs to the
-- JavaScript engine: `none` is a number that is no integer or is negative.
pub mod Saving
pub mod Fields
use dbtabase_workbench.Common.{
  ℕ, Bool, true, false, not, ◌&&◌, ◌||◌, Option, none, some, List, [], ◌∷◌, ◌++◌, Text, text, ◌===◌,
  any, truthy, trim, leb, if◌then◌else◌,
}
use dbtabase_workbench.Decimal.{decimal}
use dbtabase_workbench.Driver.{DriverId, sql, default_port}
use dbtabase_workbench.Sql.Ident.{postgres}

pub data ConnectionKind : Type 0 where
  database_kind ssh_kind : ConnectionKind

pub data ConnectionScope : Type 0 where
  personal team : ConnectionScope

-- `DatabaseDriver | 'ssh'`.
pub data ConnectionDriver : Type 0 where
  database_driver : DriverId → ConnectionDriver
  ssh_driver : ConnectionDriver

pub record ConnectionFormValue : Type 0 where
  pub name : Text
  pub kind : ConnectionKind
  pub driver : ConnectionDriver
  pub scope : ConnectionScope
  pub team_id : Text
  pub host : Text
  pub port : Text
  pub database : Text
  pub username : Text
  pub password : Text
  pub private_key : Text
  pub passphrase : Text

pub record TeamSummary : Type 0 where
  pub id : Text
  pub name : Text
  pub role : Text

pub record Secret : Type 0 where
  pub username : Text
  pub password : Option Text
  pub private_key : Option Text
  pub passphrase : Option Text

-- `SaveInput['connection']`, of which the form sets these fields; `config` is its database.
pub record SavedConnection : Type 0 where
  pub name : Text
  pub kind : ConnectionKind
  pub driver : ConnectionDriver
  pub scope : ConnectionScope
  pub team_id : Option Text
  pub host : Text
  pub port : ℕ
  pub database : Option Text

pub record SaveInput : Type 0 where
  pub connection : SavedConnection
  pub secret : Option Secret

-- The keys of `fields`.
pub data FormField : Type 0 where
  name_field host_field driver_field team_field passphrase_field : FormField
  credentials_field port_field : FormField

-- `none` is the error, with the fields that are wrong.
pub data Saved : Type 0 where
  saved : SaveInput → Saved
  refused : List FormField → Saved

abbrev pub is_ssh : ConnectionKind → Bool
is_ssh database_kind = false
is_ssh ssh_kind = true

abbrev pub is_team : ConnectionScope → Bool
is_team personal = false
is_team team = true

unfoldable pub default_port_text : ConnectionDriver → Text
default_port_text (database_driver d) = decimal (default_port d)
default_port_text ssh_driver = decimal 22

abbrev pub default_driver : ConnectionKind → ConnectionDriver
default_driver ssh_kind = ssh_driver
default_driver database_kind = database_driver (sql postgres)

abbrev pub is_ssh_driver : ConnectionDriver → Bool
is_ssh_driver (database_driver d) = false
is_ssh_driver ssh_driver = true

unfoldable pub is_valid_kind_driver : ConnectionKind → ConnectionDriver → Bool
is_valid_kind_driver kind driver =
    if is_ssh kind then is_ssh_driver driver else not (is_ssh_driver driver)

abbrev pub check : Bool → FormField → List FormField
check wrong field = if wrong then field ∷ [] else []

abbrev pub present : Text → Option Text
present s = if truthy s then some s else none

-- An administrator of the team that the form names.
unfoldable pub manages_team : List TeamSummary → Text → Bool
manages_team teams id = any (λ t. t.id === id && t.role === text "admin") teams

abbrev pub is_port : Option ℕ → Bool
is_port none = false
is_port (some n) = leb 1 n && leb n 65535

-- `rawPort`.
unfoldable pub raw_port : ConnectionFormValue → Text
raw_port value =
    if truthy (trim value.port)
    then trim value.port
    else if is_ssh value.kind
    then text "22"
    else default_port_text value.driver

abbrev pub port_or_zero : Option ℕ → ℕ
port_or_zero none = 0
port_or_zero (some n) = n

unfoldable pub saved_secret : ConnectionFormValue → Option Secret
saved_secret value =
    let password = trim value.password in
    let private_key = trim value.private_key in
    if not (is_ssh value.kind) && truthy password
    then some (record {
      username = trim value.username;
      password = some password;
      private_key = none;
      passphrase = none;
    })
    else if is_ssh value.kind && (truthy password || truthy private_key)
    then some (record {
      username = trim value.username;
      password = present password;
      private_key = present private_key;
      passphrase = if truthy private_key then present (trim value.passphrase) else none;
    })
    else none

module _ (number : Text → Option ℕ) where
  -- The errors, in the order in which they are found.
  unfoldable pub wrong_fields : ConnectionFormValue → List TeamSummary → Bool → List FormField
  wrong_fields value teams existing_secret =
      check (not (truthy (trim value.name))) name_field
      ++ check (not (truthy (trim value.host))) host_field
      ++ check (not (is_valid_kind_driver value.kind value.driver)) driver_field
      ++ check (is_team value.scope && not (manages_team teams value.team_id)) team_field
      ++ check
          (is_ssh value.kind
            && truthy (trim value.passphrase)
            && not (truthy (trim value.private_key)))
          passphrase_field
      ++ check
          (is_ssh value.kind
            && not (truthy (trim value.password))
            && not (truthy (trim value.private_key))
            && not existing_secret)
          credentials_field
      ++ check (not (is_port (number (raw_port value)))) port_field

  unfoldable pub saved_connection : ConnectionFormValue → SavedConnection
  saved_connection value = record {
    name = trim value.name;
    kind = value.kind;
    driver = value.driver;
    scope = value.scope;
    team_id = if is_team value.scope then some value.team_id else none;
    host = trim value.host;
    port = port_or_zero (number (raw_port value));
    database = if is_ssh value.kind then none else present (trim value.database);
  }

  unfoldable pub to_save_input : ConnectionFormValue → List TeamSummary → Bool → Saved
  to_save_input value teams existing_secret = elim (wrong_fields value teams existing_secret) [
    | [] ↦ saved (record { connection = saved_connection value; secret = saved_secret value })
    | f ∷ fs ↦ refused (f ∷ fs)
  ]

-- A saved connection, as the server sends it.
pub record Connection : Type 0 where
  pub id : Text
  pub name : Text
  pub kind : ConnectionKind
  pub driver : ConnectionDriver
  pub scope : ConnectionScope
  pub owner_user_id : Option Text
  pub team_id : Option Text
  pub host : Text
  pub port : ℕ
  pub database : Option Text
  pub has_secret : Bool

pub record WorkbenchTarget : Type 0 where
  pub id : Text
  pub name : Text
  pub driver : DriverId
  pub scope : ConnectionScope
  pub team_id : Option Text
  pub host : Text
  pub port : ℕ
  pub database : Text
  pub has_secret : Bool

-- `none` is the error for a connection that is no database.
unfoldable pub to_workbench_target : Connection → Option WorkbenchTarget
to_workbench_target c = elim c.driver [
  | ssh_driver ↦ none
  | database_driver d ↦
      if is_ssh c.kind
      then none
      else some (record {
        id = c.id;
        name = c.name;
        driver = d;
        scope = c.scope;
        team_id = c.team_id;
        host = c.host;
        port = c.port;
        database = elim c.database [ none ↦ [] | some n ↦ n ];
        has_secret = c.has_secret;
      })
]
