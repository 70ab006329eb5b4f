-- ===== src/Examples/Forms.antt =====
-- Forms of connections.
use dbtabase_workbench.Common.{
  ℕ, ◌≡◌, refl, true, false, not, ◌&&◌, Option, none, some, [], Text, text, trim, is_space,
}
use dbtabase_workbench.Driver.{sql}
use dbtabase_workbench.Sql.Ident.{mysql}
use dbtabase_workbench.Connection.{
  ConnectionFormValue, SaveInput, Connection, database_kind, ssh_kind, personal, database_driver,
  ssh_driver, is_ssh, to_save_input, wrong_fields, saved_connection, saved_secret, raw_port,
  is_valid_kind_driver, to_workbench_target, WorkbenchTarget,
}
use dbtabase_workbench.Connection.Saving.{IsSaved, is_missing, to_save_input-IsSaved}

-- A reading of ports that knows one.
abbrev port_22 : Text → Option ℕ
port_22 t = some 22

abbrev form : ConnectionFormValue
form = record {
  name = text " host ";
  kind = ssh_kind;
  driver = ssh_driver;
  scope = personal;
  team_id = [];
  host = text "h";
  port = [];
  database = [];
  username = text "root";
  password = text "pw";
  private_key = [];
  passphrase = [];
}

abbrev saved_form : SaveInput
saved_form = record {
  connection = record {
    name = text "host";
    kind = ssh_kind;
    driver = ssh_driver;
    scope = personal;
    team_id = none;
    host = text "h";
    port = 22;
    database = none;
  };
  secret = some (record {
    username = text "root";
    password = some (text "pw");
    private_key = none;
    passphrase = none;
  });
}

abbrev old_connection : Connection
old_connection = record {
  id = text "c1";
  name = text "main";
  kind = database_kind;
  driver = database_driver (sql mysql);
  scope = personal;
  owner_user_id = none;
  team_id = none;
  host = text "h";
  port = 3306;
  database = none;
  has_secret = true;
}

to_save_input-IsSaved_example :
    IsSaved [] form saved_form.connection
    × ((is_ssh form.kind && not false && is_missing saved_form.secret) ≡ false)
unfolding to_save_input wrong_fields saved_connection saved_secret raw_port is_valid_kind_driver
    trim is_space
to_save_input-IsSaved_example = to_save_input-IsSaved port_22 form [] false refl

abbrev map_target : Option WorkbenchTarget → Option Text
map_target none = none
map_target (some t) = some t.database

-- A connection to a database opens in the workbench, without a database where it names none.
target_example : map_target (to_workbench_target old_connection) ≡ some []
unfolding to_workbench_target
target_example = refl
