-- ===== src/Rest/Args.antt =====
-- argList of pkg/rest/filter.go: the bind parameters of a query, and the names that it looks up.
use pigo.Base.{ℕ, ◌+◌, ◌≡◌, Option, List, [], ◌∷◌, ◌++◌, arith, length, length-append, find}
use pigo.Base.Int.{ℤ}
use pigo.Base.Bytes.{Bytes, codes, ◌==◌, decimal}
use pigo.Base.Json.{Value}
use pigo.Pgx.Schema.{Table, Column}

-- a bind parameter: a value of the request, or an integer of the query's own
pub data Arg : Type 0 where
  value : Value → Arg
  int : ℤ → Arg

abbrev pub Args : Type 0
Args = List Arg

-- the placeholder $n
unfoldable pub placeholder : ℕ → Bytes
placeholder n = codes "$" ++ decimal n

-- `add` appends the parameter and returns its placeholder.
unfoldable pub add : Arg → Args → Bytes × Args
add v args = (placeholder (length args + 1), args ++ v ∷ [])

pub add-length : (v : Arg) (args : Args) → length (args ++ v ∷ []) ≡ length args + 1
add-length v args = omega (arith, length-append {0} args (v ∷ []))

unfoldable pub find_column : Table → Bytes → Option Column
find_column table name = find (λ c. c.name == name) table.columns
