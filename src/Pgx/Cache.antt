-- ===== src/Pgx/Cache.antt =====
-- pkg/pgx/schema/schema.go: the cache of the database's tables. What the queries return is a parameter.
pub mod Loaded
pub mod Watched
pub mod Backoff
use pigo.Base.{
  ltb, if◌then◌else◌, any, ℕ, ◌*◌, Bool, true, false, Option, none, some, List, [], ◌∷◌, ◌++◌,
}
use pigo.Base.Bytes.{codes, Bytes, ◌==◌}
use pigo.Base.Maps.{assign, StringMap}
use pigo.Pgx.Schema.{Table, Column, ForeignKey}

abbrev pub type_table : Bytes
type_table = codes "TABLE"

abbrev pub type_view : Bytes
type_view = codes "VIEW"

abbrev pub type_materialized_view : Bytes
type_materialized_view = codes "MATERIALIZED VIEW"

-- a row of the query for columns, whose kinds may be null
pub record ColumnRow : Type 0 where
  pub name : Bytes
  pub data_type : Bytes
  pub udt_schema : Bytes
  pub udt_name : Bytes
  pub kind : Option Bytes
  pub elem_kind : Option Bytes
  pub is_nullable : Bool
  pub is_primary_key : Bool

-- a row of the query for tables: schema, name and type
pub record TableRow : Type 0 where
  pub schema : Bytes
  pub name : Bytes
  pub type : Bytes

-- The rows of each query, or none where it fails, a row cannot be scanned, or the rows end in an error.
-- A definition may be null.
pub record Catalog : Type 0 where
  pub schemas : Option (List Bytes)
  pub tables : Bytes → Option (List TableRow)
  pub view_definition : Bytes → Bytes → Option (Option Bytes)
  pub materialized_view_definition : Bytes → Bytes → Option (Option Bytes)
  pub columns : Bytes → Bytes → Option (List ColumnRow)
  pub foreign_keys : Bytes → Bytes → Option (List ForeignKey)

abbrev pub or_empty : Option Bytes → Bytes
or_empty none = []
or_empty (some s) = s

unfoldable pub column_of : ColumnRow → Column
column_of r = record {
  name = r.name;
  data_type = r.data_type;
  udt_schema = r.udt_schema;
  udt_name = r.udt_name;
  type_kind = or_empty r.kind;
  elem_kind = or_empty r.elem_kind;
  is_nullable = r.is_nullable;
  is_primary_key = r.is_primary_key;
}

-- the loop of queryColumns, with the columns and the primary keys so far
unfoldable pub collect_columns :
    List ColumnRow → List Column → List Bytes → List Column × List Bytes
unfolding column_of
collect_columns [] cols pkeys = (cols, pkeys)
collect_columns (r ∷ rs) cols pkeys =
    collect_columns rs (cols ++ column_of r ∷ [])
      (if r.is_primary_key then pkeys ++ r.name ∷ [] else pkeys)

unfoldable pub query_columns : Catalog → Bytes → Bytes → Option (List Column × List Bytes)
unfolding collect_columns
query_columns catalog schema table = elim (catalog.columns schema table) [
  | none ↦ none
  | some rows ↦ some (collect_columns rows [] [])
]

unfoldable pub full_name : Table → Bytes
full_name t = t.schema ++ codes "." ++ t.name

-- the definition of a view of one of the two types
unfoldable pub view_query_of : Catalog → TableRow → Option Bytes
view_query_of catalog r =
    if r.type == type_view
    then elim (catalog.view_definition r.schema r.name) [ none ↦ none | some d ↦ some (or_empty d) ]
    else if r.type == type_materialized_view
    then elim (catalog.materialized_view_definition r.schema r.name) [
      | none ↦ none
      | some d ↦ some (or_empty d)
    ]
    else some []

unfoldable pub foreign_keys_of : Catalog → TableRow → Option (List ForeignKey)
foreign_keys_of catalog r =
    if r.type == type_table then catalog.foreign_keys r.schema r.name else some []

-- the body of loadSchema's loop
unfoldable pub load_table : Catalog → TableRow → Option Table
unfolding view_query_of query_columns foreign_keys_of
load_table catalog r = elim (view_query_of catalog r) [
  | none ↦ none
  | some view_query ↦ elim (query_columns catalog r.schema r.name) [
    | none ↦ none
    | some (cols, pkeys) ↦ elim (foreign_keys_of catalog r) [
      | none ↦ none
      | some fkeys ↦ some (record {
        schema = r.schema;
        name = r.name;
        type = r.type;
        columns = cols;
        primary_keys = pkeys;
        foreign_keys = fkeys;
        view_query = view_query;
      })
    ]
  ]
]

unfoldable pub load_rows : Catalog → List TableRow → StringMap Table → Option (StringMap Table)
unfolding load_table full_name assign
load_rows catalog [] tables = some tables
load_rows catalog (r ∷ rs) tables = elim (load_table catalog r) [
  | none ↦ none
  | some t ↦ load_rows catalog rs (assign (full_name t) t tables)
]

unfoldable pub load_schema : Catalog → Bytes → Option (StringMap Table)
unfolding load_rows
load_schema catalog schema = elim (catalog.tables schema) [
  | none ↦ none
  | some rows ↦ load_rows catalog rows []
]

unfoldable pub is_system : Bytes → Bool
is_system schema =
    any (λ s. s == schema)
      (codes "information_schema"
        ∷ codes "pg_catalog"
        ∷ codes "pg_toast"
        ∷ codes "pg_temp_1"
        ∷ codes "pg_toast_temp_1"
        ∷ [])

-- maps.Copy(dst, src), with src first
unfoldable pub copy_into {ℓ} : {V : Type ℓ} → StringMap V → StringMap V → StringMap V
unfolding assign
copy_into [] dst = dst
copy_into ((k, v) ∷ src) dst = copy_into src (assign k v dst)

unfoldable pub load_schemas : Catalog → List Bytes → StringMap Table → Option (StringMap Table)
unfolding is_system load_schema copy_into
load_schemas catalog [] tables = some tables
load_schemas catalog (s ∷ ss) tables = elim (is_system s) [
  | true ↦ load_schemas catalog ss tables
  | false ↦ elim (load_schema catalog s) [
    | none ↦ none
    | some loaded ↦ load_schemas catalog ss (copy_into loaded tables)
  ]
]

unfoldable pub load_all : Catalog → Option (StringMap Table)
unfolding load_schemas
load_all catalog = elim catalog.schemas [
  | none ↦ none
  | some schemas ↦ load_schemas catalog schemas []
]

-- The cache: its tables, the snapshot that a reload waits to send, the channel with room for one, and
-- what its reader has taken.
pub record Cache : Type 0 where
  pub tables : StringMap Table
  pub sending : Option (StringMap Table)
  pub watch : Option (StringMap Table)
  pub taken : List (StringMap Table)

-- NewCache
abbrev pub new_cache : Cache
new_cache = record { tables = []; sending = none; watch = none; taken = [] }

-- reload, up to where it waits to send the snapshot; none where the tables do not load
unfoldable pub reload : Option (StringMap Table) → Cache → Option Cache
reload none c = none
reload (some tables) c = some (record c { tables = tables; sending = some tables })

abbrev pub reload_payload : Bytes
reload_payload = codes "reload schema"

-- A notification that listen has received. A reload that fails is only told.
unfoldable pub notified : Catalog → Bytes → Cache → Cache
unfolding reload load_all
notified catalog payload c =
    if payload == reload_payload
    then elim (reload (load_all catalog) c) [ none ↦ c | some d ↦ d ]
    else c

-- the waiting send, once the channel has room, and the reader's receive
unfoldable pub send : Cache → Cache
send c = elim c.watch [
  | some t ↦ c
  | none ↦ elim c.sending [ none ↦ c | some t ↦ record c { sending = none; watch = some t } ]
]

unfoldable pub take_snapshot : Cache → Cache
take_snapshot c = elim c.watch [
  | none ↦ c
  | some t ↦ record c { watch = none; taken = t ∷ c.taken }
]

-- reconnectWithBackoff: the waits, in nanoseconds and less their jitter, before each attempt, for the
-- outcomes of the attempts, up to the first that succeeds
abbrev pub max_backoff : ℕ
max_backoff = 120_000_000_000

unfoldable pub reconnect_waits : ℕ → List Bool → List ℕ
reconnect_waits backoff [] = []
reconnect_waits backoff (ok ∷ oks) =
    let more =
      reconnect_waits (if ltb (backoff * 2) max_backoff then backoff * 2 else max_backoff) oks in
    backoff ∷ (if ok then [] else more)
