-- ===== src/Schema/Types.antt =====
-- The types that a column may be given: web/src/features/schema/columnTypes.ts. `new Set` keeps the
-- first of equal texts.
use dbtabase_workbench.Common.{
  ◌≡◌, refl, Bool, false, not, ◌&&◌, ◌||◌, List, [], ◌∷◌, ◌++◌, Text, text, ◌===◌, ===_iff,
  ===_refl, truthy, any, any-append, filter, map, arith,
}
use dbtabase_workbench.Sql.Ident.{SqlDriver, mysql, postgres}

abbrev pub postgres_column_types : List Text
postgres_column_types = map text (
    "smallint" ∷ "integer" ∷ "bigint" ∷ "numeric" ∷ "numeric(10,2)" ∷ "real" ∷ "double precision"
    ∷ "smallserial" ∷ "serial" ∷ "bigserial" ∷ "character varying" ∷ "character varying(255)"
    ∷ "varchar" ∷ "varchar(255)" ∷ "character" ∷ "character(1)" ∷ "char" ∷ "text" ∷ "boolean"
    ∷ "date" ∷ "time" ∷ "time without time zone" ∷ "timestamp" ∷ "timestamp without time zone"
    ∷ "timestamp with time zone" ∷ "timestamptz" ∷ "json" ∷ "jsonb" ∷ "uuid" ∷ "bytea" ∷ "inet"
    ∷ "cidr" ∷ [])

abbrev pub mysql_column_types : List Text
mysql_column_types = map text (
    "tinyint" ∷ "smallint" ∷ "mediumint" ∷ "int" ∷ "bigint" ∷ "decimal" ∷ "decimal(10,2)" ∷ "float"
    ∷ "double" ∷ "char" ∷ "char(1)" ∷ "varchar" ∷ "varchar(255)" ∷ "text" ∷ "mediumtext"
    ∷ "longtext" ∷ "binary" ∷ "varbinary" ∷ "blob" ∷ "mediumblob" ∷ "longblob" ∷ "date" ∷ "datetime"
    ∷ "timestamp" ∷ "time" ∷ "year" ∷ "json" ∷ "boolean" ∷ "bool" ∷ "uuid" ∷ [])

-- `[...new Set(list)]`.
unfoldable pub unique : List Text → List Text
unique [] = []
unique (x ∷ xs) = x ∷ filter (λ y. not (y === x)) (unique xs)

abbrev pub preset : SqlDriver → List Text
preset mysql = mysql_column_types
preset postgres = postgres_column_types

-- The values of the options; each is its own label.
unfoldable pub build_column_type_options : SqlDriver → List Text → List Text
build_column_type_options driver existing_types =
    unique (filter truthy existing_types ++ preset driver)

unfoldable pub default_column_type : SqlDriver → Text
default_column_type mysql = text "varchar(255)"
default_column_type postgres = text "character varying(255)"

abbrev pub includes_text : List Text → Text → Bool
includes_text list k = any (λ x. x === k) list

-- No two options are the same.
abbrev pub IsUnique : List Text → Type 0
IsUnique [] = Unit
IsUnique (x ∷ xs) = (includes_text xs x ≡ false) × IsUnique xs

includes_text-filter :
    (x k : Text) (list : List Text)
    → includes_text (filter (λ y. not (y === x)) list) k ≡ (not (x === k) && includes_text list k)
includes_text-filter x k [] = ground arith
includes_text-filter x k (y ∷ list) = ground (
  arith,
  ===_iff y x,
  ===_iff y k,
  ===_iff x k,
  ===_refl x,
  ===_refl k,
  includes_text-filter x k list,
)

includes_text-unique :
    (k : Text) (list : List Text) → includes_text (unique list) k ≡ includes_text list k
unfolding unique
includes_text-unique k [] = refl
includes_text-unique k (x ∷ list) =
    ground (arith, includes_text-filter x k (unique list), includes_text-unique k list)

filter-IsUnique :
    (x : Text) (list : List Text) → IsUnique list → IsUnique (filter (λ y. not (y === x)) list)
filter-IsUnique x [] h = tt
filter-IsUnique x (y ∷ list) h =
    ground (arith, includes_text-filter x y list, filter-IsUnique x list h.1)

unique-IsUnique : (list : List Text) → IsUnique (unique list)
unfolding unique
unique-IsUnique [] = tt
unique-IsUnique (x ∷ list) = (
  ground (arith, includes_text-filter x x (unique list), ===_refl x),
  filter-IsUnique x (unique list) (unique-IsUnique list),
)

-- The options are the types in use, but for the empty one, and those of the driver, each once.
pub build_column_type_options-IsUnique :
    (driver : SqlDriver) (existing_types : List Text) (k : Text)
    → IsUnique (build_column_type_options driver existing_types)
      × (includes_text (build_column_type_options driver existing_types) k
          ≡ (includes_text (filter truthy existing_types) k || includes_text (preset driver) k))
unfolding build_column_type_options
build_column_type_options-IsUnique driver existing_types k = (
  unique-IsUnique (filter truthy existing_types ++ preset driver),
  rw (includes_text-unique k (filter truthy existing_types ++ preset driver), any-append),
)
