-- ===== src/Http/Router.antt =====
-- pkg/httputil/router.go: the router and its chains.
-- A handler changes a state S: the request, the response and all that handlers share.
-- The multiplexer is net/http's: which of the registered patterns serves a request, whether a
-- pattern is refused beside those registered, and the answer where none fits, are parameters.
-- A router and its groups share one multiplexer and one server: the table is a state of its own.
use pigo.Base.{
  ℕ, zero, suc, Bool, true, false, not, ◌||◌, Option, none, some, List, [], ◌∷◌, ◌++◌,
  if◌then◌else◌, length, get_elem?, ltb, eqb, map,
}
use pigo.Base.Bytes.{Bytes, codes, lookup, has_prefix, has_suffix}
pub mod Chains

abbrev pub Handler : Type 0 → Type 0
Handler S = S → S

abbrev pub Middleware : Type 0 → Type 0
Middleware S = Handler S → Handler S

-- the patterns of the multiplexer with their handlers
abbrev pub Mux : Type 0 → Type 0
Mux S = List (Bytes × Handler S)

-- the fields of a Router that routing reads, less the multiplexer that routers share
pub record Router (S : Type 0) : Type 0 where
  pub prefix : Bytes
  pub middleware : List (Middleware S)

-- net/http's ServeMux
pub record MuxRules (S : Type 0) : Type 0 where
  pub refuses : Bytes → List Bytes → Bool
  pub selects : List Bytes → S → Option Bytes
  pub not_found : Handler S

-- strings.Cut by one byte
unfoldable pub cut : ℕ → Bytes → Option (Bytes × Bytes)
cut sep [] = none
cut sep (c ∷ s) =
    let rest = cut sep s in
    if eqb c sep then some ([], s) else elim rest [ none ↦ none | some p ↦ some (c ∷ p.0, p.1) ]

-- none where the code panics
unfoldable pub split_method_pattern : Bytes → Option (Bytes × Bytes)
unfolding cut has_prefix
split_method_pattern s = elim (cut 32 s) [
  | none ↦ none
  | some p ↦ if has_prefix p.1 (codes "/") then some p else none
]

module _ {S : Type 0} where
  unfoldable pub new_router : Router S
  new_router = record { prefix = []; middleware = [] }

  unfoldable pub use_middleware : Middleware S → List (Middleware S) → Router S → Router S
  use_middleware mw additional r = record r {
    middleware =
        if ltb 0 (length additional)
        then (r.middleware ++ mw ∷ []) ++ additional
        else r.middleware ++ mw ∷ [];
  }

  -- none where the code panics
  unfoldable pub group : Bytes → Router S → Option (Router S)
  unfolding has_suffix
  group prefix r =
      if has_suffix prefix (codes "/")
      then none
      else some (record { prefix = r.prefix ++ prefix; middleware = r.middleware })

  -- The loop from the last middleware to the first: `i` of them are left to apply.
  unfoldable pub apply_down : ℕ → Handler S → List (Middleware S) → Handler S
  apply_down zero h mw = h
  apply_down (suc i) h mw = apply_down i (elim (get_elem? mw i) [ none ↦ h | some m ↦ m h ]) mw

  unfoldable pub apply_middleware : Handler S → List (Middleware S) → Handler S
  unfolding apply_down
  apply_middleware h mw = apply_down (length mw) h mw

  -- what Handle registers at the multiplexer
  unfoldable pub full_pattern : Router S → Bytes × Bytes → Bytes
  full_pattern r p = p.0 ++ codes " " ++ r.prefix ++ p.1

  -- none where the code, or the multiplexer, panics
  unfoldable pub handle : MuxRules S → Bytes → Handler S → Router S → Mux S → Option (Mux S)
  unfolding split_method_pattern full_pattern apply_middleware
  handle rules method_pattern handler r mux = elim (split_method_pattern method_pattern) [
    | none ↦ none
    | some p ↦
        if rules.refuses (full_pattern r p) (map (λ e. e.0) mux)
        then none
        else some ((full_pattern r p, apply_middleware handler r.middleware) ∷ mux)
  ]

  -- the multiplexer as a handler
  unfoldable pub serve_mux : MuxRules S → Mux S → Handler S
  unfolding lookup
  serve_mux rules mux s = elim (rules.selects (map (λ e. e.0) mux) s) [
    | none ↦ rules.not_found s
    | some pattern ↦ elim (lookup pattern mux) [ none ↦ rules.not_found s | some h ↦ h s ]
  ]

  unfoldable pub serve_http : MuxRules S → Router S → Mux S → Handler S
  unfolding apply_middleware serve_mux
  serve_http rules r mux = apply_middleware (serve_mux rules mux) r.middleware
