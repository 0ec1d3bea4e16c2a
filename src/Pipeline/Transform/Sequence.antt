-- ===== src/Pipeline/Transform/Sequence.antt =====
-- pkg/pipeline: one chain of transformations after another.
use mathlib.Core.Path.{fun_ext, subst}
use pigo.Base.{ap₂, ◌≡◌, refl, ap, ◌∙◌, sym, Option, none, some, List, [], ◌∷◌, ◌++◌, ◌⊎◌, inl, inr}
use pigo.Pipeline.Cdc.{Event, Heap}
use pigo.Pipeline.Transform.{Func, Outcome, passed, skipped, failed, Fault, Patterns}
use pigo.Pipeline.Transform.Chain.{
  Transformation, Decoders, Registry, register_builtins, build_step, push_built, run_built,
  then_run, build_chain, run_chain, apply_transformations,
}
use pigo.Pipeline.Manager.{Source, Pipeline}
use pigo.Pipeline.Process.{event_of, apply_event_transformations}

then_run_assoc :
    (r : Outcome × Heap) (f g : Func)
    → then_run r (λ e h. then_run (f e h) g) ≡ then_run (then_run r f) g
then_run_assoc (passed e, h) f g = refl
then_run_assoc (skipped, h) f g = refl
then_run_assoc (failed x, h) f g = refl

run_chain-append :
    (fs gs : List Func) → run_chain (fs ++ gs) ≡ λ e h. then_run (run_chain fs e h) (run_chain gs)
unfolding run_chain
run_chain-append [] gs = refl
run_chain-append (f ∷ fs) gs = fun_ext λ e. fun_ext λ h.
    ap (then_run (f e h)) (run_chain-append fs gs)
    ∙ then_run_assoc (f e h) (run_chain fs) (run_chain gs)

pub push_built-inr :
    (s : Fault ⊎ Func) (c : Fault ⊎ List Func) (fs : List Func)
    → push_built s c ≡ inr fs
    → (f : Func) × (gs : List Func) × (s ≡ inr f) × (c ≡ inr gs) × (fs ≡ f ∷ gs)
push_built-inr (inl e) c fs h = cc
push_built-inr (inr f) (inl e) fs h = cc
push_built-inr (inr f) (inr gs) fs h = (f, gs, refl, refl, cc)

build_chain-append :
    (d : Decoders) (r : Registry) (ts us : List Transformation) (fs gs : List Func)
    → build_chain d r ts ≡ inr fs
    → build_chain d r us ≡ inr gs
    → build_chain d r (ts ++ us) ≡ inr (fs ++ gs)
unfolding build_chain
build_chain-append d r [] us fs gs p q =
    let e : [] ≡ fs = cc in subst (λ v. build_chain d r us ≡ inr (v ++ gs)) e q
build_chain-append d r (t ∷ ts) us fs gs p q =
    let (f, fs', s, c, e) = push_built-inr (build_step d r t) (build_chain d r ts) fs p in
    ap₂ push_built s (build_chain-append d r ts us fs' gs c q) ∙ ap (λ v. inr (v ++ gs)) (sym e)

apply-chain :
    (pats : Patterns) (d : Decoders) (ts : List Transformation) (fs : List Func) (e : Event)
    (h : Heap)
    → build_chain d (register_builtins pats []) ts ≡ inr fs
    → apply_transformations pats d ts (some e) h ≡ run_chain fs e h
unfolding apply_transformations build_chain run_chain
apply-chain pats d [] fs e h p = let q : [] ≡ fs = cc in ap (λ v. run_chain v e h) q
apply-chain pats d (t ∷ ts) fs e h p = ap (λ c. run_built c e h) p

event_then :
    (x : Outcome × Heap) (g : Func)
    → elim (event_of x.0) as (λ _. Option Event × Heap) [
      | none ↦ (none, x.1)
      | some e ↦ (event_of (g e x.1).0, (g e x.1).1)
    ]
      ≡ (event_of (then_run x g).0, (then_run x g).1)
event_then (passed e, h) g = refl
event_then (skipped, h) g = refl
event_then (failed x, h) g = refl

-- Where both lists of transformations can be built, an event that goes through the source's and
-- then the pipeline's ends as it does in one chain of them all, which stops at the first that drops
-- the event or fails.
pub source_then_pipeline :
    (pats : Patterns) (d : Decoders) (source : Source) (pl : Pipeline) (fs gs : List Func)
    (e : Event) (h : Heap)
    → build_chain d (register_builtins pats []) source.transformations ≡ inr fs
    → build_chain d (register_builtins pats []) pl.transformations ≡ inr gs
    → let r =
        apply_transformations pats d (source.transformations ++ pl.transformations) (some e) h in
      apply_event_transformations pats d source pl e h ≡ (event_of r.0, r.1)
unfolding apply_event_transformations
source_then_pipeline pats d source pl fs gs e h p q =
    let ts = source.transformations in
    let us = pl.transformations in
    let after : Func = λ e h. apply_transformations pats d us (some e) h in
    let same : after ≡ run_chain gs = fun_ext λ e. fun_ext λ h. apply-chain pats d us gs e h q in
    let whole : then_run (apply_transformations pats d ts (some e) h) after
        ≡ apply_transformations pats d (ts ++ us) (some e) h =
      ap₂ then_run (apply-chain pats d ts fs e h p) same
      ∙ (ap (λ f. f e h) (sym (run_chain-append fs gs))
          ∙ sym (
              apply-chain pats d (ts ++ us) (fs ++ gs) e h
                (build_chain-append d (register_builtins pats []) ts us fs gs p q))) in
    event_then (apply_transformations pats d ts (some e) h) after
    ∙ ap (λ r. (event_of r.0, r.1)) whole
