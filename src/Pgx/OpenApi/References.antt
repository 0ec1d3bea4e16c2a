-- ===== src/Pgx/OpenApi/References.antt =====
-- pkg/pgx/schema/openapi.go: the references of the document's operations.
use pigo.Base.{
  is_some, ap, Bool, false, not, ◌&&◌, Option, none, some, Bool-cases, is_empty, All, inl, inr,
  arith, if◌then◌else◌, ◌≡◌, refl, true, List, [], ◌∷◌, ◌++◌, map,
}
use pigo.Base.Bytes.{split, lookup, contains_byte, split_whole, Bytes, codes, ◌==◌}
use pigo.Base.Json.{
  Value, Values, array, text, cons, end, nil, Members, number, null, object, bool, member,
}
use pigo.Base.Maps.{lookup-assign_self, assign, lookup-assign, has_key, StringMap}
use pigo.Pgx.Cache.{full_name}
use pigo.Pgx.Cache.Loaded.{All-assign}
use pigo.Pgx.OpenApi.{
  obj, OpenApiGenerator, column_named, get_parameter_schema, column_parameter,
  build_query_parameters, primary_key_parameter, build_primary_key_parameters, build_table_schema,
  values_list,
}
use pigo.Pgx.OpenApi.Document.{
  generate_specification, add_paths, table_path, build_record_path, document_tables,
}
use pigo.Pgx.OpenApi.Operations.{build_table_operations, build_record_operations}
use pigo.Pgx.Schema.{Table, Column}

abbrev pub text_of : Value → List Bytes
text_of null = []
text_of (bool b) = []
text_of (number n) = []
text_of (text s) = s ∷ []
text_of (array vs) = []
text_of (object ms) = []

-- the texts under $ref in a value
mutual
  pub refs : Value → List Bytes
  refs null = []
  refs (bool b) = []
  refs (number n) = []
  refs (text s) = []
  refs (array vs) = refs_values vs
  refs (object ms) = refs_members ms

  pub refs_values : Values → List Bytes
  refs_values nil = []
  refs_values (cons v vs) = refs v ++ refs_values vs

  pub refs_members : Members → List Bytes
  refs_members end = []
  refs_members (member k v ms) =
      (if k == codes "$ref" then text_of v else refs v) ++ refs_members ms

-- what a JSON object has under a key
abbrev pub under : Bytes → Value → Option Value
under k null = none
under k (bool b) = none
under k (number n) = none
under k (text s) = none
under k (array vs) = none
under k (object end) = none
under k (object (member j v ms)) = if j == k then some v else under k (object ms)

-- A segment of a JSON pointer stands for itself where it has no escape of the pointer or of the URI.
abbrev pub is_unescaped : Bytes → Bool
is_unescaped s = not (contains_byte b'~' s) && not (contains_byte b'%' s)

abbrev pub follow : List Bytes → Value → Option Value
follow [] v = some v
follow (s ∷ path) v =
    if is_unescaped s then elim (under s v) [ none ↦ none | some w ↦ follow path w ] else none

-- What a reference into its own document names there: a JSON pointer behind a #. A pointer with escapes
-- is taken to name nothing.
unfoldable pub resolve : Value → Bytes → Option Value
unfolding split contains_byte ◌==◌
resolve document r = elim (split b'/' r) [
  | [] ↦ none
  | fragment ∷ path ↦ if fragment == codes "#" then follow path document else none
]

-- The name of a table that a pointer can hold as it is.
abbrev pub is_plain : Bytes → Bool
is_plain name = not (contains_byte b'/' name) && is_unescaped name

-- A reference is the path of a schema.
abbrev pub Resolves : StringMap Value → Bytes → Type 0
Resolves schemas r =
    (name : Bytes) × (r ≡ codes "#/components/schemas/" ++ name)
    × (is_plain name ≡ true)
    × (has_key name schemas ≡ true)

parameter_schema_refs : (c : Column) → refs (get_parameter_schema c) ≡ []
unfolding refs get_parameter_schema ◌==◌
parameter_schema_refs c = refl

column_parameters_refs :
    (cs : List Column) → refs_values (values_list (map column_parameter cs)) ≡ []
unfolding refs column_parameter ◌==◌
column_parameters_refs [] = refl
column_parameters_refs (c ∷ cs) = rw (parameter_schema_refs c, column_parameters_refs cs) refl

key_parameters_refs :
    (cs : List Column) (keys : List Bytes)
    → refs_values (values_list (map (primary_key_parameter cs) keys)) ≡ []
unfolding refs primary_key_parameter ◌==◌
key_parameters_refs cs [] = refl
key_parameters_refs cs (k ∷ ks) =
    rw (parameter_schema_refs (column_named k cs), key_parameters_refs cs ks) refl

abbrev pub name_of : Table → Bytes
name_of table = codes "#/components/schemas/" ++ full_name table

table_operations_refs :
    (t : Table) → refs (build_table_operations t) ≡ name_of t ∷ name_of t ∷ name_of t ∷ []
unfolding refs build_table_operations build_query_parameters ◌==◌
table_operations_refs t = rw (column_parameters_refs t.columns) refl

record_operations_refs :
    (t : Table) → refs (build_record_operations t) ≡ name_of t ∷ name_of t ∷ name_of t ∷ []
unfolding refs build_record_operations build_primary_key_parameters ◌==◌
record_operations_refs t = rw (key_parameters_refs t.columns t.primary_keys) refl

-- The references of an entry of the paths are resolved by schemas.
abbrev pub IsResolved : StringMap Value → Bytes × Value → Type 0
IsResolved schemas p = All (Resolves schemas) (refs p.1)

Resolves-assign :
    (schemas : StringMap Value) (k : Bytes) (v : Value) (rs : List Bytes)
    → All (Resolves schemas) rs
    → All (Resolves (assign k v schemas)) rs
Resolves-assign schemas k v [] h = tt
Resolves-assign schemas k v (r ∷ rs) h =
    let (name, e, plain, found) = h.0 in
    (
      (name, e, plain, ground (arith, lookup-assign k name v schemas, found)),
      Resolves-assign schemas k v rs h.1,
    )

IsResolved-assign :
    (schemas : StringMap Value) (k : Bytes) (v : Value) (paths : StringMap Value)
    → All (IsResolved schemas) paths
    → All (IsResolved (assign k v schemas)) paths
IsResolved-assign schemas k v [] h = tt
IsResolved-assign schemas k v (p ∷ ps) h =
    (Resolves-assign schemas k v (refs p.1) h.0, IsResolved-assign schemas k v ps h.1)

name_of-Resolves :
    (t : Table) (v : Value) (schemas : StringMap Value)
    → is_plain (full_name t) ≡ true
    → Resolves (assign (full_name t) v schemas) (name_of t)
name_of-Resolves t v schemas plain =
    (full_name t, refl, plain, rw (lookup-assign_self (full_name t) v schemas) refl)

add_paths-IsResolved :
    (t : Table) (v : Value) (paths schemas : StringMap Value)
    → is_plain (full_name t) ≡ true
    → All (IsResolved (assign (full_name t) v schemas)) paths
    → All (IsResolved (assign (full_name t) v schemas)) (add_paths t paths)
unfolding add_paths
add_paths-IsResolved t v paths schemas plain h =
    let more = assign (full_name t) v schemas in
    let named = name_of-Resolves t v schemas plain in
    let with_table =
      All-assign (IsResolved more) (table_path t) (build_table_operations t) paths
        (rw (table_operations_refs t) (named, (named, (named, tt)))) h in
    elim (Bool-cases (is_empty t.primary_keys)) [
      | inl no_keys ↦ rw no_keys with_table
      | inr keys ↦ rw keys (
          All-assign (IsResolved more) (build_record_path t) (build_record_operations t)
            (assign (table_path t) (build_table_operations t) paths)
            (rw (record_operations_refs t) (named, (named, (named, tt)))) with_table)
    ]

-- the names of the tables need no escapes
abbrev pub ArePlain : StringMap Table → Type 0
ArePlain tables = All (λ p. is_plain (full_name p.1) ≡ true) tables

document_tables-IsResolved :
    (tables : StringMap Table) (paths schemas : StringMap Value)
    → ArePlain tables
    → All (IsResolved schemas) paths
    → All
        (IsResolved (document_tables tables paths schemas).1)
        (document_tables tables paths schemas).0
unfolding document_tables
document_tables-IsResolved [] paths schemas plain h = h
document_tables-IsResolved ((k, t) ∷ tables) paths schemas plain h =
    let v = build_table_schema t in
    document_tables-IsResolved tables (add_paths t paths) (assign (full_name t) v schemas) plain.1 (
      add_paths-IsResolved t v paths schemas plain.0
        (IsResolved-assign schemas (full_name t) v paths h))

under-obj : (k : Bytes) (schemas : StringMap Value) → under k (obj schemas) ≡ lookup k schemas
unfolding lookup
under-obj k [] = refl
under-obj k ((j, v) ∷ schemas) = ap (λ o. if j == k then some v else o) (under-obj k schemas)

-- a path of a schema leads to it
Resolves-resolve :
    (g : OpenApiGenerator) (tables : StringMap Table) (r : Bytes)
    → Resolves (document_tables tables [] []).1 r
    → is_some (resolve (generate_specification g tables) r) ≡ true
unfolding resolve split contains_byte ◌==◌ generate_specification
Resolves-resolve g tables r (name, named, plain, found) =
    let schemas = (document_tables tables [] []).1 in
    let no_slash : contains_byte b'/' name ≡ false = ground arith in
    let unescaped : is_unescaped name ≡ true = ground arith in
    rw (named, split_whole b'/' name no_slash, unescaped, under-obj name schemas)
      (ground (arith, found))

-- the references of a path of a document all name something in it
abbrev pub HasTargets : Value → Bytes × Value → Type 0
HasTargets document p = All (λ r. is_some (resolve document r) ≡ true) (refs p.1)

All-resolve :
    (g : OpenApiGenerator) (tables : StringMap Table) (rs : List Bytes)
    → All (Resolves (document_tables tables [] []).1) rs
    → All (λ r. is_some (resolve (generate_specification g tables) r) ≡ true) rs
All-resolve g tables [] h = tt
All-resolve g tables (r ∷ rs) h = (Resolves-resolve g tables r h.0, All-resolve g tables rs h.1)

All-HasTargets :
    (g : OpenApiGenerator) (tables : StringMap Table) (paths : StringMap Value)
    → All (IsResolved (document_tables tables [] []).1) paths
    → All (HasTargets (generate_specification g tables)) paths
All-HasTargets g tables [] h = tt
All-HasTargets g tables (p ∷ paths) h =
    (All-resolve g tables (refs p.1) h.0, All-HasTargets g tables paths h.1)

-- Let no table have a slash, a tilde or a percent sign in its schema or name. Then the specification has
-- an object of paths, and every $ref in the operations of every path, read as a JSON pointer into the
-- specification, names a value there.
pub references_resolve :
    (g : OpenApiGenerator) (tables : StringMap Table)
    → ArePlain tables
    → (paths : StringMap Value) × (under (codes "paths") (generate_specification g tables)
        ≡ some (obj paths))
      × All (HasTargets (generate_specification g tables)) paths
unfolding generate_specification ◌==◌
references_resolve g tables plain = (
  (document_tables tables [] []).0,
  refl,
  All-HasTargets g tables (document_tables tables [] []).0
      (document_tables-IsResolved tables [] [] plain tt),
)
