-- ===== src/Pgx/Cache/Loaded.antt =====
-- pkg/pgx/schema/schema.go: what the tables of the cache have in common.
use pigo.Pgx.Schema.{ForeignKey}
use pigo.Base.{
  Option-cases, if◌then◌else◌, Bool-cases, All, is_empty, ◌≡◌, refl, inl, inr, true, ◌||◌, none,
  some, List, [], ◌∷◌, ◌++◌, arith, Option,
}
use pigo.Base.Bytes.{◌==◌, Bytes, ==_sound}
use pigo.Base.Maps.{StringMap, assign}
use mathlib.Core.Path.{subst}
use pigo.Pgx.Schema.{Table, Column}
use pigo.Pgx.Cache.{
  Catalog, TableRow, ColumnRow, type_table, column_of, collect_columns, query_columns,
  view_query_of, foreign_keys_of, load_table, load_rows, load_schema, copy_into, load_schemas,
  load_all, full_name, is_system,
}

abbrev pub key_names : List Column → List Bytes
key_names [] = []
key_names (c ∷ cs) = if c.is_primary_key then c.name ∷ key_names cs else key_names cs

-- A table stands under its schema and name, its primary keys are the columns that are one, in their
-- order, and only a base table has foreign keys.
abbrev pub IsLoaded : Bytes × Table → Type 0
IsLoaded (k, t) =
    (k ≡ full_name t)
    × (t.primary_keys ≡ key_names t.columns)
    × ((t.type == type_table || is_empty t.foreign_keys) ≡ true)

key_names-append :
    (cs : List Column) (c : Column)
    → key_names (cs ++ c ∷ [])
      ≡ (if c.is_primary_key then key_names cs ++ c.name ∷ [] else key_names cs)
key_names-append [] c = ground arith
key_names-append (d ∷ ds) c = ground (arith, key_names-append ds c)

collect_columns-key_names :
    (rows : List ColumnRow) (cols : List Column) (pkeys : List Bytes)
    → pkeys ≡ key_names cols
    → (collect_columns rows cols pkeys).1 ≡ key_names (collect_columns rows cols pkeys).0
unfolding collect_columns column_of
collect_columns-key_names [] cols pkeys h = h
collect_columns-key_names (r ∷ rs) cols pkeys h =
    collect_columns-key_names rs (cols ++ column_of r ∷ [])
      (if r.is_primary_key then pkeys ++ r.name ∷ [] else pkeys)
      (rw (h, key_names-append cols (column_of r)) refl)

pub All-assign :
    {V : Type 0} (P : Bytes × V → Type 0) (k : Bytes) (v : V) (m : StringMap V)
    → P (k, v)
    → All P m
    → All P (assign k v m)
unfolding assign
All-assign P k v [] p h = (p, tt)
All-assign P k v ((j, w) ∷ m) p h = elim (Bool-cases (j == k)) [
  | inl e ↦ rw (e, ==_sound j k e) (p, h.1)
  | inr e ↦ rw e (h.0, All-assign P k v m p h.1)
]

All-copy_into :
    {V : Type 0} (P : Bytes × V → Type 0) (src dst : StringMap V)
    → All P src
    → All P dst
    → All P (copy_into src dst)
unfolding copy_into
All-copy_into P [] dst s d = d
All-copy_into P ((k, v) ∷ src) dst s d =
    All-copy_into P src (assign k v dst) s.1 (All-assign P k v dst s.0 d)

query_columns-key_names :
    (catalog : Catalog) (schema table : Bytes) (cols : List Column) (pkeys : List Bytes)
    → query_columns catalog schema table ≡ some (cols, pkeys)
    → pkeys ≡ key_names cols
unfolding query_columns
query_columns-key_names catalog schema table cols pkeys e =
    elim (Option-cases (catalog.columns schema table)) [
      | inl l ↦
          let nothing_read : Option (List Column × List Bytes) = none in
          let absent : nothing_read ≡ some (cols, pkeys) = rw (query_columns, l) at e in cc
      | inr (rows, l) ↦
          let made : some (collect_columns rows [] []) ≡ some (cols, pkeys) =
            rw (query_columns, l) at e in
          let same : collect_columns rows [] [] ≡ (cols, pkeys) = ground arith in
          subst (λ c. c.1 ≡ key_names c.0) same (collect_columns-key_names rows [] [] refl)
    ]

foreign_keys_of-is_table :
    (catalog : Catalog) (r : TableRow) (fkeys : List ForeignKey)
    → foreign_keys_of catalog r ≡ some fkeys
    → (r.type == type_table || is_empty fkeys) ≡ true
unfolding foreign_keys_of
foreign_keys_of-is_table catalog r fkeys e = elim (Bool-cases (r.type == type_table)) [
  | inl yes' ↦ rw yes' refl
  | inr no' ↦
      let made : some [] ≡ some fkeys = rw (foreign_keys_of, no') at e in
      let same : [] ≡ fkeys = ground arith in rw (no', ← same) refl
]

load_table-IsLoaded :
    (catalog : Catalog) (r : TableRow) (t : Table)
    → load_table catalog r ≡ some t
    → IsLoaded (full_name t, t)
unfolding load_table
load_table-IsLoaded catalog r t h = elim (Option-cases (view_query_of catalog r)) [
  | inl v ↦ let absent : none ≡ some t = rw (load_table, v) at h in cc
  | inr (view_query, v) ↦ elim (Option-cases (query_columns catalog r.schema r.name)) [
    | inl q ↦ let absent : none ≡ some t = rw (load_table, v, q) at h in cc
    | inr ((cols, pkeys), q) ↦ elim (Option-cases (foreign_keys_of catalog r)) [
      | inl f ↦ let absent : none ≡ some t = rw (load_table, v, q, f) at h in cc
      | inr (fkeys, f) ↦
          let made : some (table_with r cols pkeys fkeys view_query) ≡ some t =
            rw (load_table, v, q, f) at h in
          let same : table_with r cols pkeys fkeys view_query ≡ t = ground arith in
          subst (λ u. IsLoaded (full_name u, u)) same
            (
              refl,
              query_columns-key_names catalog r.schema r.name cols pkeys q,
              foreign_keys_of-is_table catalog r fkeys f,
            )
    ]
  ]
]
  where
    table_with : TableRow → List Column → List Bytes → List ForeignKey → Bytes → Table
    table_with r cols pkeys fkeys view_query = record {
      schema = r.schema;
      name = r.name;
      type = r.type;
      columns = cols;
      primary_keys = pkeys;
      foreign_keys = fkeys;
      view_query = view_query;
    }

load_rows-IsLoaded :
    (catalog : Catalog) (rows : List TableRow) (tables out : StringMap Table)
    → All IsLoaded tables
    → load_rows catalog rows tables ≡ some out
    → All IsLoaded out
unfolding load_rows
load_rows-IsLoaded catalog [] tables out h e = subst (All IsLoaded) (ground arith) h
load_rows-IsLoaded catalog (r ∷ rs) tables out h e = elim (Option-cases (load_table catalog r)) [
  | inl l ↦ let absent : none ≡ some out = rw (load_rows, l) at e in cc
  | inr (t, l) ↦
      load_rows-IsLoaded catalog rs (assign (full_name t) t tables) out
        (All-assign IsLoaded (full_name t) t tables (load_table-IsLoaded catalog r t l) h)
        (rw (load_rows, l) at e)
]

load_schema-IsLoaded :
    (catalog : Catalog) (s : Bytes) (out : StringMap Table)
    → load_schema catalog s ≡ some out
    → All IsLoaded out
unfolding load_schema
load_schema-IsLoaded catalog s out e = elim (Option-cases (catalog.tables s)) [
  | inl l ↦ let absent : none ≡ some out = rw (load_schema, l) at e in cc
  | inr (rows, l) ↦ load_rows-IsLoaded catalog rows [] out tt (rw (load_schema, l) at e)
]

load_schemas-IsLoaded :
    (catalog : Catalog) (ss : List Bytes) (tables out : StringMap Table)
    → All IsLoaded tables
    → load_schemas catalog ss tables ≡ some out
    → All IsLoaded out
unfolding load_schemas
load_schemas-IsLoaded catalog [] tables out h e = subst (All IsLoaded) (ground arith) h
load_schemas-IsLoaded catalog (s ∷ ss) tables out h e = elim (Bool-cases (is_system s)) [
  | inl sys ↦ load_schemas-IsLoaded catalog ss tables out h (rw (load_schemas, sys) at e)
  | inr own ↦ elim (Option-cases (load_schema catalog s)) [
    | inl l ↦ let absent : none ≡ some out = rw (load_schemas, own, l) at e in cc
    | inr (loaded, l) ↦
        load_schemas-IsLoaded catalog ss (copy_into loaded tables) out
          (All-copy_into IsLoaded loaded tables (load_schema-IsLoaded catalog s loaded l) h)
          (rw (load_schemas, own, l) at e)
  ]
]

-- Every table that loadAll returns stands under its schema and name, its primary keys are the names of
-- its columns that are marked so, in the columns' order, and only a base table has foreign keys.
pub load_all-IsLoaded :
    (catalog : Catalog) (tables : StringMap Table)
    → load_all catalog ≡ some tables
    → All IsLoaded tables
unfolding load_all
load_all-IsLoaded catalog tables e = elim (Option-cases catalog.schemas) [
  | inl l ↦ let absent : none ≡ some tables = rw (load_all, l) at e in cc
  | inr (ss, l) ↦ load_schemas-IsLoaded catalog ss [] tables tt (rw (load_all, l) at e)
]
