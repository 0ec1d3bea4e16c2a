-- ===== src/Http/Router/Chains.antt =====
-- pkg/httputil/router.go: the order in which a request passes the middleware.
use mathlib.Core.List.{append_assoc, append-nil, map}
use mathlib.Core.Path.{subst}
use pigo.Base.{
  Bool-cases, Option-cases, any, inl, inr, true, Option, none, ℕ, zero, suc, ◌≡◌, refl, some, List,
  [], ◌∷◌, ◌++◌, length, arith, ◌∙◌, ap, sym,
}
use pigo.Base.Bytes.{◌==◌, ==_sound, Bytes, lookup, ==_refl, codes}
use pigo.Http.Router.{
  Handler, Middleware, Mux, Router, MuxRules, apply_down, apply_middleware, handle, serve_http,
  serve_mux, full_pattern, split_method_pattern,
}

-- a call of Handle: the router, the pattern and the handler
abbrev pub Registration : Type 0 → Type 0
Registration S = Router S × Bytes × Handler S

module _ {S : Type 0} where
  -- the first of the middleware is the outermost
  unfoldable pub nested : Handler S → List (Middleware S) → Handler S
  nested h [] = h
  nested h (m ∷ mw) = m (nested h mw)

  -- the loop over a longer list ends with its first element
  apply_down-cons :
      (i : ℕ) (h : Handler S) (m : Middleware S) (mw : List (Middleware S))
      → apply_down (suc i) h (m ∷ mw) ≡ m (apply_down i h mw)
  unfolding apply_down
  apply_down-cons zero h m mw = refl
  apply_down-cons (suc i) h m mw = apply_down-cons i _ m mw

  apply_middleware-nested :
      (h : Handler S) (mw : List (Middleware S)) → apply_middleware h mw ≡ nested h mw
  unfolding apply_middleware apply_down nested
  apply_middleware-nested h [] = refl
  apply_middleware-nested h (m ∷ mw) =
      apply_down-cons (length mw) h m mw ∙ ap m (apply_middleware-nested h mw)

  handle-lookup :
      (rules : MuxRules S) (method_pattern : Bytes) (handler : Handler S) (g : Router S)
      (mux mux' : Mux S) (p : Bytes × Bytes)
      → split_method_pattern method_pattern ≡ some p
      → handle rules method_pattern handler g mux ≡ some mux'
      → lookup (full_pattern g p) mux' ≡ some (nested handler g.middleware)
  unfolding handle full_pattern lookup
  handle-lookup rules method_pattern handler g mux mux' p e h = ground (
    arith,
    e,
    h,
    ==_refl (p.0 ++ codes " " ++ g.prefix ++ p.1),
    apply_middleware-nested handler g.middleware,
  )

  -- from a pattern's entry, the multiplexer goes on to the handler that is registered
  serves_entry :
      (rules : MuxRules S) (r : Router S) (mux : Mux S) (pattern : Bytes) (h : Handler S) (s : S)
      → lookup pattern mux ≡ some h
      → rules.selects (map (λ e. e.0) mux) s ≡ some pattern
      → (serve_http rules r mux ≡ nested (serve_mux rules mux) r.middleware)
        × (serve_mux rules mux s ≡ h s)
  unfolding serve_http serve_mux
  serves_entry rules r mux pattern h s entry sel =
      (apply_middleware-nested (serve_mux rules mux) r.middleware, rw (serve_mux, sel, entry) refl)

  -- calls of Handle on one multiplexer, one after the other
  unfoldable pub handle_all : MuxRules S → List (Registration S) → Mux S → Option (Mux S)
  handle_all rules [] mux = some mux
  handle_all rules ((g, method_pattern, handler) ∷ calls) mux =
      elim (handle rules method_pattern handler g mux) [
        | none ↦ none
        | some mux' ↦ handle_all rules calls mux'
      ]

  -- ServeMux panics on a pattern that is registered already.
  abbrev pub RefusesRepeats : MuxRules S → Type 0
  RefusesRepeats rules =
      (pattern : Bytes) (patterns : List Bytes)
      → any (λ q. q == pattern) patterns ≡ true
      → rules.refuses pattern patterns ≡ true

  lookup-any :
      (pattern : Bytes) (mux : Mux S) (h : Handler S)
      → lookup pattern mux ≡ some h
      → any (λ q. q == pattern) (map (λ e. e.0) mux) ≡ true
  unfolding lookup
  lookup-any pattern [] h found = cc
  lookup-any pattern ((q, h') ∷ mux) h found = elim (Bool-cases (q == pattern)) [
    | inl same ↦ rw same refl
    | inr other ↦ rw other (lookup-any pattern mux h (ground (arith, found, other)))
  ]

  handle-keeps :
      (rules : MuxRules S) (method_pattern : Bytes) (handler : Handler S) (g : Router S)
      (mux mux' : Mux S) (pattern : Bytes) (h : Handler S)
      → RefusesRepeats rules
      → handle rules method_pattern handler g mux ≡ some mux'
      → lookup pattern mux ≡ some h
      → lookup pattern mux' ≡ some h
  unfolding handle lookup
  handle-keeps rules method_pattern handler g mux mux' pattern h refuses handled found =
      elim (Option-cases (split_method_pattern method_pattern)) [
        | inl e ↦ ground (arith, handled, e)
        | inr (p, e) ↦ elim (Bool-cases (full_pattern g p == pattern)) [
          | inr other ↦ ground (arith, handled, e, other, found)
          | inl same ↦
              let repeated : rules.refuses (full_pattern g p) (map (λ e. e.0) mux) ≡ true =
                refuses (full_pattern g p) (map (λ e. e.0) mux) (
                  subst (λ q. any (λ k. k == q) (map (λ e. e.0) mux) ≡ true)
                    (sym (==_sound (full_pattern g p) pattern same))
                    (lookup-any pattern mux h found)) in
              ground (arith, handled, e, repeated)
        ]
      ]

  handle_all-keeps :
      (rules : MuxRules S) (calls : List (Registration S)) (mux mux' : Mux S) (pattern : Bytes)
      (h : Handler S)
      → RefusesRepeats rules
      → handle_all rules calls mux ≡ some mux'
      → lookup pattern mux ≡ some h
      → lookup pattern mux' ≡ some h
  unfolding handle_all
  handle_all-keeps rules [] mux mux' pattern h refuses handled found =
      ground (arith, handled, found)
  handle_all-keeps rules ((g, method_pattern, handler) ∷ calls) mux mux' pattern h refuses handled
        found =
      elim (Option-cases (handle rules method_pattern handler g mux)) [
        | inl e ↦ ground (arith, handled, e)
        | inr (mid, e) ↦
            handle_all-keeps rules calls mid mux' pattern h refuses (ground (arith, handled, e))
              (handle-keeps rules method_pattern handler g mux mid pattern h refuses e found)
      ]

  handle_all-lookup :
      (rules : MuxRules S) (before after : List (Registration S)) (method_pattern : Bytes)
      (handler : Handler S) (g : Router S) (mux mux' : Mux S) (p : Bytes × Bytes)
      → RefusesRepeats rules
      → split_method_pattern method_pattern ≡ some p
      → handle_all rules (before ++ (g, method_pattern, handler) ∷ after) mux ≡ some mux'
      → lookup (full_pattern g p) mux' ≡ some (nested handler g.middleware)
  unfolding handle_all
  handle_all-lookup rules [] after method_pattern handler g mux mux' p refuses e handled =
      elim (Option-cases (handle rules method_pattern handler g mux)) [
        | inl f ↦ ground (arith, handled, f)
        | inr (mid, f) ↦
            handle_all-keeps rules after mid mux' (full_pattern g p) (nested handler g.middleware)
              refuses (ground (arith, handled, f))
              (handle-lookup rules method_pattern handler g mux mid p e f)
      ]
  handle_all-lookup rules ((g', method_pattern', handler') ∷ before) after method_pattern handler g
        mux mux' p refuses e handled =
      elim (Option-cases (handle rules method_pattern' handler' g' mux)) [
        | inl f ↦ ground (arith, handled, f)
        | inr (mid, f) ↦
            handle_all-lookup rules before after method_pattern handler g mid mux' p refuses e
              (ground (arith, handled, f))
      ]

  -- Let routers that share a multiplexer register handlers, one of them the router g under
  -- "METHOD /path", and let the multiplexer select that pattern for a state s, which is the method, a
  -- space, the prefix of g and the path. Let it refuse a pattern that it has already. Then a router r
  -- with that multiplexer passes every request through all middleware of r, the first outermost, with
  -- the multiplexer inside; and from s the multiplexer goes through the middleware that g had, the
  -- first outermost, to the handler of that registration.
  pub router_serves :
      (rules : MuxRules S) (before after : List (Registration S)) (method_pattern : Bytes)
      (handler : Handler S) (g r : Router S) (mux mux' : Mux S) (p : Bytes × Bytes) (s : S)
      → RefusesRepeats rules
      → split_method_pattern method_pattern ≡ some p
      → handle_all rules (before ++ (g, method_pattern, handler) ∷ after) mux ≡ some mux'
      → rules.selects (map (λ e. e.0) mux') s ≡ some (full_pattern g p)
      → (serve_http rules r mux' ≡ nested (serve_mux rules mux') r.middleware)
        × (serve_mux rules mux' s ≡ nested handler g.middleware s)
  router_serves rules before after method_pattern handler g r mux mux' p s refuses e handled sel =
      serves_entry rules r mux' (full_pattern g p) (nested handler g.middleware) s
        (handle_all-lookup rules before after method_pattern handler g mux mux' p refuses e handled)
        sel

-- a middleware that leaves its name and goes on
unfoldable pub mark : Bytes → Middleware (List Bytes)
mark name next s = next (s ++ name ∷ [])

nested-mark :
    (names : List Bytes) (h : Handler (List Bytes)) (s : List Bytes)
    → nested h (map mark names) s ≡ h (s ++ names)
unfolding nested mark
nested-mark [] h s = ap h (sym (append-nil s))
nested-mark (name ∷ names) h s =
    nested-mark names h (s ++ name ∷ []) ∙ ap h (append_assoc s (name ∷ []) names)

-- Where the middleware of a router each leave a name and go on, a handler is registered on the
-- router itself and the multiplexer selects its pattern, a request that the router serves passes
-- every middleware twice before it reaches the handler.
pub root_middleware_runs_twice :
    (rules : MuxRules (List Bytes)) (method_pattern : Bytes) (handler : Handler (List Bytes))
    (names : List Bytes) (r : Router (List Bytes)) (mux mux' : Mux (List Bytes)) (p : Bytes × Bytes)
    → r.middleware ≡ map mark names
    → split_method_pattern method_pattern ≡ some p
    → handle rules method_pattern handler r mux ≡ some mux'
    → ((s : List Bytes) → rules.selects (map (λ e. e.0) mux') s ≡ some (full_pattern r p))
    → (s : List Bytes) → serve_http rules r mux' s ≡ handler ((s ++ names) ++ names)
root_middleware_runs_twice rules method_pattern handler names r mux mux' p marks e h sel s =
    let served =
      serves_entry rules r mux' (full_pattern r p) (nested handler r.middleware) (s ++ names)
        (handle-lookup rules method_pattern handler r mux mux' p e h) (sel (s ++ names)) in
    ap (λ f. f s) served.0
    ∙ ap (λ mw. nested (serve_mux rules mux') mw s) marks
    ∙ nested-mark names (serve_mux rules mux') s
    ∙ served.1
    ∙ ap (λ mw. nested handler mw (s ++ names)) marks
    ∙ nested-mark names handler (s ++ names)
