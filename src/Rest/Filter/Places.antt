-- ===== src/Rest/Filter/Places.antt =====
-- pkg/rest/filter.go: the SQL text of a filter has every value in its place.
use mathlib.Core.Path.{subst}
use pigo.Base.{if◌then◌else◌, ◌≡◌, sym, Bool, true, false, List, [], ◌∷◌, ◌++◌}
use pigo.Base.Bytes.{Bytes, codes, join}
use pigo.Pgx.Schema.{Table}
use pigo.Rest.Args.{Args, Arg}
use pigo.Rest.Error.{Result, err, ◌>>=◌, ok}
use pigo.Rest.Filter.{condition, FilterNodes, group, nil, FilterNode, cons}
use pigo.Rest.Filter.Params.{Appends, nodes-Appends, params_of, params_of_node, params}
use pigo.Rest.Filter.Spelled.{
  nothing, literal, parens_reading, negated_reading, join_reading, Piece, readings,
  condition_reading, Spells, reading, behind,
}
use pigo.Rest.Filter.Spelling.{condition-Spelled, Spells-more, Spelled}
use pigo.Rest.Filter.Sql.{Env, node_sql, parens, condition_sql, nodes_sql, negated}

-- each text spells its pieces
data SpellsAll (args : Args) : List (List Piece) → List Bytes → Type 0 where
  none_left : SpellsAll args [] []
  and_then :
      (ps : List Piece) (s : Bytes) (pss : List (List Piece)) (ss : List Bytes)
      → Spells args ps s
      → SpellsAll args pss ss
      → SpellsAll args (ps ∷ pss) (s ∷ ss)

join-Spells :
    (args : Args) (sep : Bytes) (pss : List (List Piece)) (ss : List Bytes)
    → SpellsAll args pss ss
    → Spells args (join_reading sep pss) (join sep ss)
unfolding join
join-Spells args sep pss ss none_left = nothing
join-Spells args sep pss ss (and_then ps s [] [] h none_left) = h
join-Spells args sep pss ss (and_then ps s [] (t ∷ ss') h rest) = elim rest [ ]
join-Spells args sep pss ss (and_then ps s (qs' ∷ pss') [] h rest) = elim rest [ ]
join-Spells args sep pss ss (and_then ps s (qs' ∷ pss') (t ∷ ss') h rest) =
    behind (behind h (literal sep)) (join-Spells args sep (qs' ∷ pss') (t ∷ ss') rest)

abbrev SpelledAll : Result (List Bytes × Args) → List (List Piece) → Type 0
SpelledAll (ok (ss, args)) pss = SpellsAll args pss ss
SpelledAll (err e) pss = Unit {0}

parens-Spells :
    (args : Args) (ps : List Piece) (s : Bytes)
    → Spells args ps s
    → Spells args (parens_reading ps) (parens s)
parens-Spells args ps s h = behind (behind (literal (codes "(")) h) (literal (codes ")"))

negated-Spells :
    (args : Args) (negate : Bool) (ps : List Piece) (s : Bytes)
    → Spells args ps s
    → Spells args (negated_reading negate ps) (negated negate s)
negated-Spells args true ps s h = behind (literal (codes "NOT ")) h
negated-Spells args false ps s h = h

condition_node-Spelled :
    (negate : Bool) (r : Result (Bytes × Args)) (ps : List Piece)
    → Spelled r ps
    → Spelled
        (r >>= (λ p. ok (negated negate (if negate then parens p.0 else p.0), p.1)))
        (negated_reading negate (if negate then parens_reading ps else ps))
condition_node-Spelled negate (err e) ps h = tt
condition_node-Spelled true (ok (s, args)) ps h =
    negated-Spells args true (parens_reading ps) (parens s) (parens-Spells args ps s h)
condition_node-Spelled false (ok (s, args)) ps h = h

group_node-Spelled :
    (negate : Bool) (sep : Bytes) (r : Result (List Bytes × Args)) (pss : List (List Piece))
    → SpelledAll r pss
    → Spelled
        (r >>= (λ p. ok (negated negate (parens (join sep p.0)), p.1)))
        (negated_reading negate (parens_reading (join_reading sep pss)))
group_node-Spelled negate sep (err e) pss h = tt
group_node-Spelled negate sep (ok (ss, args)) pss h =
    negated-Spells args negate (parens_reading (join_reading sep pss)) (parens (join sep ss))
      (parens-Spells args (join_reading sep pss) (join sep ss) (join-Spells args sep pss ss h))

-- a node's text is spelled beside the parameters of the nodes behind it too
cons-SpelledAll :
    (r : Result (Bytes × Args)) (f : Args → Result (List Bytes × Args)) (ps : List Piece)
    (pss : List (List Piece)) (xs : List Arg)
    → Spelled r ps
    → ((mid : Args) → SpelledAll (f mid) pss)
    → ((mid : Args) → Appends (f mid) mid xs)
    → SpelledAll (r >>= (λ p. f p.1 >>= (λ q. ok (p.0 ∷ q.0, q.1)))) (ps ∷ pss)
cons-SpelledAll (err e) f ps pss xs h k l = tt
cons-SpelledAll (ok (s, mid)) f ps pss xs h k l = go (f mid) (k mid) (l mid)
  where
    go :
        (r : Result (List Bytes × Args))
        → SpelledAll r pss
        → Appends r mid xs
        → SpelledAll (r >>= (λ q. ok (s ∷ q.0, q.1))) (ps ∷ pss)
    go (err e) i j = tt
    go (ok (ss, args)) i j =
        and_then ps s pss ss (subst (λ v. Spells v ps s) (sym j) (Spells-more mid xs ps s h)) i

mutual
  unfolding node_sql reading

  node-Spelled :
      (env : Env) (table : Table) (n : FilterNode) (args : Args)
      → Spelled (node_sql env table n args) (reading env table n)
  node-Spelled env table (group negate logic ns) args =
      group_node-Spelled negate (codes " " ++ logic ++ codes " ") (nodes_sql env table ns args)
        (readings env table ns) (nodes-Spelled env table ns args)
  node-Spelled env table (condition c) args =
      condition_node-Spelled c.negate (condition_sql env table c args)
        (condition_reading env table c) (condition-Spelled env table c args)

  nodes-Spelled :
      (env : Env) (table : Table) (ns : FilterNodes) (args : Args)
      → SpelledAll (nodes_sql env table ns args) (readings env table ns)
  nodes-Spelled env table nil args = none_left
  nodes-Spelled env table (cons n ns) args =
      cons-SpelledAll (node_sql env table n args) (nodes_sql env table ns) (reading env table n)
        (readings env table ns) (params_of env table ns) (node-Spelled env table n args)
        (nodes-Spelled env table ns) (nodes-Appends env table ns)

-- A filter that renders keeps the parameters it is given and has its own behind them. Its SQL text is
-- the one that a reading of the tree without numbers gives, with every value of the filter where it
-- belongs: at that place the text has $n, and the value is the n-th parameter.
pub sql_spells_filter :
    (env : Env) (table : Table) (n : FilterNode) (args : Args) (sql : Bytes) (args' : Args)
    → node_sql env table n args ≡ ok (sql, args')
    → Spells args' (reading env table n) sql × (args' ≡ args ++ params env table n)
sql_spells_filter env table n args sql args' h = (
  subst (λ r. Spelled r (reading env table n)) h (node-Spelled env table n args),
  params_of_node env table n args sql args' h,
)
