-- ===== src/Client/Endpoints.antt =====
-- The paths and bodies of the calls of web/src/api/client.ts. `encode` is `encodeURIComponent` and
-- `parse` is `JSON.parse`, which the JavaScript engine has; a body is the value that
-- `JSON.stringify` writes out.
pub mod Paths
use dbtabase_workbench.Common.{
  ℕ, Bool, true, false, Option, none, some, List, [], ◌∷◌, ◌++◌, Text, text, truthy, map,
  if◌then◌else◌,
}
use dbtabase_workbench.Decimal.{decimal}

mutual
  -- A value of JSON; a field that is undefined is left out.
  pub data Json : Type 0 where
    json_text : Text → Json
    json_number : ℕ → Json
    json_bool : Bool → Json
    json_list : JsonItems → Json
    json_object : JsonFields → Json
    json_other : Text → Json

  pub data JsonItems : Type 0 where
    no_items : JsonItems
    item : Json → JsonItems → JsonItems

  pub data JsonFields : Type 0 where
    no_fields : JsonFields
    field : Text → Json → JsonFields → JsonFields

pub record Endpoint : Type 0 where
  pub path : Text
  pub method : Option Text
  pub body : Option Json

abbrev pub reading : Text → Endpoint
reading path = record { path = path; method = none; body = none }

abbrev pub calling : Text → Text → Endpoint
calling method path = record { path = path; method = some method; body = none }

abbrev pub sending : Text → Text → JsonFields → Endpoint
sending method path fields = record {
  path = path;
  method = some method;
  body = some (json_object fields);
}

abbrev pub optional : Text → Option Json → JsonFields → JsonFields
optional name none fields = fields
optional name (some v) fields = field name v fields

abbrev pub text_items : List Text → JsonItems
text_items [] = no_items
text_items (t ∷ ts) = item (json_text t) (text_items ts)

abbrev pub optional_text : Text → Option Text → JsonFields → JsonFields
optional_text name none fields = fields
optional_text name (some t) fields = field name (json_text t) fields

-- A text that is parsed where it is there and not empty: the outer `none` is the error of the parse.
abbrev pub parsed : (Text → Option Json) → Option Text → Option (Option Json)
parsed parse none = some none
parsed parse (some t) =
    if truthy t then elim (parse t) [ none ↦ none | some j ↦ some (some j) ] else some none

abbrev pub or_json : Option Json → Json → Json
or_json none d = d
or_json (some j) d = j

module _ (encode : Text → Text) where
  unfoldable pub connection_path : Text → Text → Text
  connection_path id rest = text "/api/connections/" ++ (encode id ++ rest)

  unfoldable pub connect_saved : Text → Endpoint
  connect_saved id =
      calling (text "POST")
        (text "/api/registry/v2/connections/" ++ (encode id ++ text "/sessions"))

  unfoldable pub disconnect : Text → Endpoint
  disconnect id = calling (text "DELETE") (connection_path id [])

  unfoldable pub list_databases : Text → Endpoint
  list_databases id = reading (connection_path id (text "/databases"))

  unfoldable pub switch_database : Text → Text → Endpoint
  switch_database id database =
      sending (text "POST") (connection_path id (text "/database"))
        (field (text "database") (json_text database) no_fields)

  unfoldable pub metadata : Text → Endpoint
  metadata id = reading (connection_path id (text "/metadata"))

  abbrev pub table_path : Text → Text → Text → Text → Text
  table_path id schema table rest =
      connection_path id
        (text "/tables/" ++ (encode schema ++ (text "/" ++ (encode table ++ rest))))

  unfoldable pub table_detail : Text → Text → Text → Endpoint
  table_detail id schema table = reading (table_path id schema table [])

  unfoldable pub preview_schema : Text → Text → Text → JsonItems → Endpoint
  preview_schema id schema table operations =
      sending (text "POST") (table_path id schema table (text "/schema/preview"))
        (field (text "operations") (json_list operations) no_fields)

  unfoldable pub execute_schema : Text → Text → Text → Text → Bool → Endpoint
  execute_schema id schema table token confirmed =
      sending (text "POST") (table_path id schema table (text "/schema/execute")) (
        field (text "token") (json_text token)
          (field (text "confirmed") (json_bool confirmed) no_fields))

  -- `options` are the fields of the call that are given.
  unfoldable pub start_query : Text → Text → JsonFields → Endpoint
  start_query id sql options =
      sending (text "POST") (connection_path id (text "/queries"))
        (field (text "sql") (json_text sql) options)

  abbrev pub query_path : Text → Text → Text → Text
  query_path id query rest = connection_path id (text "/queries/" ++ (encode query ++ rest))

  unfoldable pub query_result : Text → Text → ℕ → Endpoint
  query_result id query cursor = reading (query_path id query (text "?cursor=" ++ decimal cursor))

  unfoldable pub cancel_query : Text → Text → Endpoint
  cancel_query id query = calling (text "DELETE") (query_path id query [])

  unfoldable pub export_url : Text → Text → Text → Text
  export_url base id query = base ++ query_path id query (text "/export.csv")

  unfoldable pub begin_transaction : Text → Endpoint
  begin_transaction id = calling (text "POST") (connection_path id (text "/transactions"))

  -- `action` is commit or rollback.
  unfoldable pub finish_transaction : Text → Text → Text → Endpoint
  finish_transaction id transaction action =
      calling (text "POST")
        (connection_path id (text "/transactions/" ++ (encode transaction ++ (text "/" ++ action))))

  -- `operation` is insert, update or delete.
  unfoldable pub mutate : Text → Text → JsonFields → Endpoint
  mutate id operation input =
      sending (text "POST") (connection_path id (text "/rows/" ++ operation)) input

  unfoldable pub capabilities : Text → Endpoint
  capabilities id = reading (connection_path id (text "/capabilities"))

  unfoldable pub mongo_collection_detail : Text → Text → Endpoint
  mongo_collection_detail id collection =
      reading (connection_path id (text "/mongo/collections/" ++ encode collection))

  unfoldable pub mongo_create_index : Text → Text → JsonFields → Bool → Option Text → Endpoint
  mongo_create_index id collection keys unique name =
      sending (text "POST")
        (connection_path id (text "/mongo/collections/" ++ (encode collection ++ text "/indexes")))
        (field (text "keys") (json_object keys)
          (field (text "unique") (json_bool unique) (optional_text (text "name") name no_fields)))

  unfoldable pub mongo_drop_index : Text → Text → Text → Endpoint
  mongo_drop_index id collection name = calling (text "DELETE") (
      connection_path id
        (text "/mongo/collections/" ++ (encode collection ++ (text "/indexes/" ++ encode name))))

  unfoldable pub redis_get_key : Text → Text → Endpoint
  redis_get_key id key = reading (connection_path id (text "/redis/key?key=" ++ encode key))

  unfoldable pub redis_save_key : Text → Text → Json → Endpoint
  redis_save_key id key value =
      sending (text "PUT") (connection_path id (text "/redis/key"))
        (field (text "key") (json_text key) (field (text "value") value no_fields))

  unfoldable pub redis_delete_key : Text → Text → Endpoint
  redis_delete_key id key =
      calling (text "DELETE") (connection_path id (text "/redis/key?key=" ++ encode key))

  unfoldable pub redis_set_ttl : Text → Text → ℕ → Endpoint
  redis_set_ttl id key ttl =
      sending (text "POST") (connection_path id (text "/redis/key/ttl"))
        (field (text "key") (json_text key) (field (text "ttl") (json_number ttl) no_fields))

  unfoldable pub redis_commands : Text → List Text → Endpoint
  redis_commands id commands =
      sending (text "POST") (connection_path id (text "/redis/commands"))
        (field (text "commands") (json_list (text_items commands)) no_fields)

module _ (encode : Text → Text) (parse : Text → Option Json) where
  -- `rest` are the fields of the input that are passed on as they are; the order of the fields of an
  -- object does not matter.
  unfoldable pub mongo_find : Text → JsonFields → Option Text → Option Text → Option Endpoint
  mongo_find id rest filter_text sort_text = elim (parsed parse filter_text) [
    | none ↦ none
    | some given_filter ↦ elim (parsed parse sort_text) [
      | none ↦ none
      | some given_sort ↦ some (
          sending (text "POST") (connection_path encode id (text "/mongo/find")) (
            field (text "filter") (or_json given_filter (json_object no_fields))
              (optional (text "sort") given_sort rest)))
    ]
  ]

  unfoldable pub mongo_aggregate : Text → Option Text → Text → Text → Option Endpoint
  mongo_aggregate id database collection pipeline = elim (parse pipeline) [
    | none ↦ none
    | some stages ↦ some (
        sending (text "POST") (connection_path encode id (text "/mongo/aggregate")) (
          optional_text (text "database") database (
            field (text "collection") (json_text collection)
              (field (text "pipeline") stages no_fields))))
  ]

  unfoldable pub mongo_mutate :
      Text → Option Text → Text → Text → Option Text → Option Text → Option Endpoint
  mongo_mutate id database collection operation filter_text document_text =
      elim (parsed parse filter_text) [
        | none ↦ none
        | some given_filter ↦ elim (parsed parse document_text) [
          | none ↦ none
          | some document ↦ some (
              sending (text "POST") (connection_path encode id (text "/mongo/documents")) (
                optional_text (text "database") database (
                  field (text "collection") (json_text collection) (
                    field (text "operation") (json_text operation) (
                      optional (text "filter") given_filter
                        (optional (text "document") document no_fields))))))
        ]
      ]
