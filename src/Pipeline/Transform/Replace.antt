-- ===== src/Pipeline/Transform/Replace.antt =====
-- pkg/pipeline/transform/replace.go
use pigo.Base.{
  ℕ, Bool, not, ◌&&◌, ◌||◌, none, some, List, [], ◌∷◌, all, is_empty, if◌then◌else◌, eqb,
}
use pigo.Base.Bytes.{Bytes, codes, ◌==◌, lookup}
use pigo.Base.Json.{Value}
use pigo.Base.Maps.{StringMap, assign}
use pigo.Pipeline.Cdc.{
  Heap, Source, Image, nothing, row, other, with_source, with_before, with_after, Field, field,
  Fields, nil, cons,
}
use pigo.Pipeline.Transform.{Func, passed, failed, invalid_replace, Patterns}

pub record RegexReplacement : Type 0 where
  pub type : Bytes
  pub pattern : Bytes
  pub replace : Bytes

pub record ReplaceConfig : Type 0 where
  pub schemas : StringMap Bytes
  pub tables : StringMap Bytes
  pub columns : StringMap Bytes
  pub regex : List RegexReplacement

abbrev pub is_valid_replacement_type : Bytes → Bool
is_valid_replacement_type t = t == codes "schema" || t == codes "table" || t == codes "column"

-- ReplaceConfig.Validate, true where there is no error
unfoldable pub validate_replace : Patterns → ReplaceConfig → Bool
validate_replace pats c =
    not (is_empty c.schemas && is_empty c.tables && is_empty c.columns && is_empty c.regex)
    && all (λ r. is_valid_replacement_type r.type && pats.compiles r.pattern) c.regex

-- a name, replaced where the map has it
unfoldable pub replaced : StringMap Bytes → Bytes → Bytes
replaced names name = elim (lookup name names) [ none ↦ name | some new ↦ new ]

-- the loop over the regex replacements; one of a column does nothing
unfoldable pub replace_regex : Patterns → List RegexReplacement → Source → Source
replace_regex pats [] s = s
replace_regex pats (r ∷ rs) s =
    let after =
      if r.type == codes "schema"
      then record s { schema = pats.replace_all r.pattern s.schema r.replace }
      else if r.type == codes "table"
      then record s { table = pats.replace_all r.pattern s.table r.replace }
      else s in
    replace_regex pats rs after

-- The loop of replaceMapKeys over one walk of the map, with the map that it fills.
unfoldable pub replace_keys : StringMap Bytes → StringMap Value → StringMap Value → StringMap Value
replace_keys names [] new = new
replace_keys names ((k, v) ∷ m) new = replace_keys names m (assign (replaced names k) v new)

unfoldable pub replace_map_keys : StringMap Bytes → Image → Image
replace_map_keys names nothing = nothing
replace_map_keys names (row m) = row (replace_keys names m [])
replace_map_keys names (other v) = other v

unfoldable pub replace_field : StringMap Bytes → Field → Field
replace_field names (field f type optional name inner) = elim (lookup f names) [
  | none ↦ field f type optional name inner
  | some new ↦ field new type optional (if is_empty name then name else new) inner
]

-- the loop over Schema.Fields, which writes to the array behind the slice
unfoldable pub replace_fields : StringMap Bytes → Fields → Fields
replace_fields names nil = nil
replace_fields names (cons f fs) = cons (replace_field names f) (replace_fields names fs)

abbrev pub store_fields : ℕ → Fields → Heap → Heap
store_fields a fs h b = if eqb a b then fs else h b

unfoldable pub replace_source : Patterns → ReplaceConfig → Source → Source
replace_source pats c s =
    replace_regex pats c.regex
      (record s { schema = replaced c.schemas s.schema; table = replaced c.tables s.table })

unfoldable pub replace : Patterns → ReplaceConfig → Func
replace pats c e h =
    let current = with_source (replace_source pats c e.payload.source) e in
    let a = e.schema.fields in
    if not (validate_replace pats c)
    then (failed invalid_replace, h)
    else if is_empty c.columns
    then (passed current, h)
    else (
      passed (
          with_after (replace_map_keys c.columns e.payload.after)
            (with_before (replace_map_keys c.columns e.payload.before) current)),
      store_fields a (replace_fields c.columns (h a)) h,
    )
