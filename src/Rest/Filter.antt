-- ===== src/Rest/Filter.antt =====
-- pkg/rest/filter.go: horizontal filters. Here the data and the tables of operators.
pub mod Parser
pub mod Names
pub mod Parse
pub mod Sql
pub mod Post
pub mod Valid
pub mod Operations
pub mod Reads
pub mod ReadsField
pub mod Tree
pub mod Total
pub mod Binding
pub mod Params
pub mod Spelled
pub mod Spelling
pub mod Places
pub mod Where
pub mod Known
pub mod Quoting
use pigo.Base.{ℕ, Bool, List, [], ◌∷◌, any}
use pigo.Base.Int.{ℤ}
use pigo.Base.Bytes.{Bytes, codes, ◌==◌}

-- one filter query parameter as sent by the client
pub record RawFilter : Type 0 where
  pub key : Bytes
  pub value : Bytes

abbrev pub sql_operators : List (Bytes × Bytes)
sql_operators =
    (codes "eq", codes "=")
    ∷ (codes "neq", codes "<>")
    ∷ (codes "gt", codes ">")
    ∷ (codes "gte", codes ">=")
    ∷ (codes "lt", codes "<")
    ∷ (codes "lte", codes "<=")
    ∷ (codes "like", codes "LIKE")
    ∷ (codes "ilike", codes "ILIKE")
    ∷ (codes "match", codes "~")
    ∷ (codes "imatch", codes "~*")
    ∷ (codes "cs", codes "@>")
    ∷ (codes "cd", codes "<@")
    ∷ (codes "ov", codes "&&")
    ∷ (codes "sl", codes "<<")
    ∷ (codes "sr", codes ">>")
    ∷ (codes "nxr", codes "&<")
    ∷ (codes "nxl", codes "&>")
    ∷ (codes "adj", codes "-|-")
    ∷ []

-- the operators that accept the modifiers (any) and (all)
unfoldable pub quantifiable : Bytes → Bool
quantifiable op =
    any (λ o. o == op)
      (codes "eq"
        ∷ codes "gt"
        ∷ codes "gte"
        ∷ codes "lt"
        ∷ codes "lte"
        ∷ codes "like"
        ∷ codes "ilike"
        ∷ codes "match"
        ∷ codes "imatch"
        ∷ [])

abbrev pub fts_functions : List (Bytes × Bytes)
fts_functions =
    (codes "fts", codes "to_tsquery")
    ∷ (codes "plfts", codes "plainto_tsquery")
    ∷ (codes "phfts", codes "phraseto_tsquery")
    ∷ (codes "wfts", codes "websearch_to_tsquery")
    ∷ []

abbrev pub is_values : List (Bytes × Bytes)
is_values =
    (codes "null", codes "NULL")
    ∷ (codes "not_null", codes "NOT NULL")
    ∷ (codes "true", codes "TRUE")
    ∷ (codes "false", codes "FALSE")
    ∷ (codes "unknown", codes "UNKNOWN")
    ∷ []

abbrev pub max_filter_depth : ℕ
max_filter_depth = 32

pub record JsonPathStep : Type 0 where
  pub arrow : Bytes
  pub key : Bytes
  pub index : ℤ
  pub is_index : Bool

-- a column, and a JSON path below it
pub record FilterField : Type 0 where
  pub column : Bytes
  pub path : List JsonPathStep

-- a filterNode with an empty `logic`: one condition on a field
pub record Condition : Type 0 where
  pub negate : Bool
  pub field : FilterField
  pub operator : Bytes
  pub quant : Bytes
  pub lang : Bytes
  pub value : Bytes
  pub list : List Bytes

-- A filterNode: a group has `logic` "AND" or "OR" and children, and is negated by its flag.
mutual
  pub data FilterNode : Type 0 where
    group : Bool → Bytes → FilterNodes → FilterNode
    condition : Condition → FilterNode

  pub data FilterNodes : Type 0 where
    nil : FilterNodes
    cons : FilterNode → FilterNodes → FilterNodes
