-- ===== src/Pipeline/Transform/Local.antt =====
-- pkg/pipeline/transform: what transformations write to the arrays that events share.
use mathlib.Core.Path.{subst}
use pigo.Base.{
  ℕ, ◌≡◌, ◌≢◌, refl, ap, ◌∙◌, sym, Bool, true, false, Option, none, some, List, [], ◌∷◌, ◌⊎◌, inl,
  inr, arith, if◌then◌else◌, is_empty, not,
}
use pigo.Pipeline.Cdc.{Event, Heap}
use pigo.Pipeline.Transform.{Func, Outcome, passed, skipped, failed, Patterns}
use pigo.Pipeline.Transform.Filter.{FilterConfig, filter, filter_event, validate_filter}
use pigo.Pipeline.Transform.Extract.{ExtractConfig, extract}
use pigo.Pipeline.Transform.Replace.{ReplaceConfig, replace, validate_replace}
use pigo.Pipeline.Transform.{Fault, not_registered}
use pigo.Base.Bytes.{Bytes, codes, lookup, ◌==◌}
use pigo.Pipeline.Transform.Sequence.{push_built-inr}
use pigo.Pipeline.Transform.Chain.{
  Config, extract_config, filter_config, replace_config, refuse, extract_factory, filter_factory,
  replace_factory, run_built, to_config, Transformation, Decoders, Registry, register_builtins,
  build_step, then_run, build_chain, run_chain, apply_transformations, to_config,
}
use pigo.Base.Maps.{assign}
use pigo.Base.Bytes.{lookup, ◌==◌}

-- From the array `a` and the heap `h`: no other array is written, and an event that passes still has
-- the array `a`.
abbrev pub Keeps : ℕ → Heap → Outcome × Heap → Type 0
Keeps a h (passed e, h') = ((b : ℕ) → b ≢ a → h' b ≡ h b) × (e.schema.fields ≡ a)
Keeps a h (skipped, h') = (b : ℕ) → b ≢ a → h' b ≡ h b
Keeps a h (failed x, h') = (b : ℕ) → b ≢ a → h' b ≡ h b

abbrev pub IsLocal : Func → Type 0
IsLocal f = (e : Event) (h : Heap) → Keeps e.schema.fields h (f e h)

record Kept (a : ℕ) (h : Heap) (r : Outcome × Heap) : Type 0 where
  at : Keeps a h r

Kept-if :
    {a : ℕ} {h : Heap} (b : Bool) {x y : Outcome × Heap}
    → Kept a h x
    → Kept a h y
    → Kept a h (if b then x else y)
Kept-if true p q = p
Kept-if false p q = q

filter_event-same :
    (pats : Patterns) (c : FilterConfig) (e e' : Event) → filter_event pats c e ≡ passed e' → e' ≡ e
unfolding filter_event
filter_event-same pats c e e' h = ground arith

filter-IsLocal : (pats : Patterns) (c : FilterConfig) → IsLocal (filter pats c)
unfolding filter
filter-IsLocal pats c e h =
    (Kept-if (validate_filter pats c)
      (record { at = go (filter_event pats c e) (filter_event-same pats c e) })
      (record { at = λ b n. refl })).at
  where
    go : (o : Outcome) → ((e' : Event) → o ≡ passed e' → e' ≡ e) → Keeps e.schema.fields h (o, h)
    go (passed e') k = (λ b n. refl, ap (λ v. v.schema.fields) (k e' refl))
    go skipped k = λ b n. refl
    go (failed x) k = λ b n. refl

extract-IsLocal : (c : ExtractConfig) → IsLocal (extract c)
unfolding extract
extract-IsLocal c e h =
    (Kept-if (is_empty c.fields) (record { at = λ b n. refl })
      (record { at = (λ b n. refl, refl) })).at

replace-IsLocal : (pats : Patterns) (c : ReplaceConfig) → IsLocal (replace pats c)
unfolding replace
replace-IsLocal pats c e h =
    (Kept-if (not (validate_replace pats c)) (record { at = λ b n. refl })
      (Kept-if (is_empty c.columns) (record { at = (λ b n. refl, refl) })
        (record { at = (λ b n. ground (arith, n), refl) }))).at

then_run-Keeps :
    (a : ℕ) (h : Heap) (x : Outcome × Heap) (g : Func)
    → Keeps a h x
    → IsLocal g
    → Keeps a h (then_run x g)
then_run-Keeps a h (skipped, h') g p q = p
then_run-Keeps a h (failed x, h') g p q = p
then_run-Keeps a h (passed e, h') g p q =
    go (g e h') (subst (λ v. Keeps v h' (g e h')) p.1 (q e h'))
  where
    go : (r : Outcome × Heap) → Keeps a h' r → Keeps a h r
    go (passed e', h'') k = (λ b n. k.0 b n ∙ p.0 b n, k.1)
    go (skipped, h'') k = λ b n. k b n ∙ p.0 b n
    go (failed x, h'') k = λ b n. k b n ∙ p.0 b n

AllLocal : List Func → Type 0
AllLocal [] = Unit
AllLocal (f ∷ fs) = IsLocal f × AllLocal fs

run_chain-IsLocal : (fs : List Func) → AllLocal fs → IsLocal (run_chain fs)
unfolding run_chain AllLocal
run_chain-IsLocal [] h e hp = (λ b n. refl, refl)
run_chain-IsLocal (f ∷ fs) h e hp =
    then_run-Keeps e.schema.fields hp (f e hp) (run_chain fs) (h.0 e hp) (run_chain-IsLocal fs h.1)

-- every factory of a registry makes local functions
AllFactories : Registry → Type 0
AllFactories [] = Unit
AllFactories ((k, g) ∷ r) = ((c : Config) → IsLocal (g c)) × AllFactories r

refuse-IsLocal : (name : Bytes) → IsLocal (refuse name)
refuse-IsLocal name e h = λ b n. refl

extract_factory-IsLocal : (c : Config) → IsLocal (extract_factory c)
extract_factory-IsLocal (extract_config c) = extract-IsLocal c
extract_factory-IsLocal (filter_config c) = refuse-IsLocal (codes "extract")
extract_factory-IsLocal (replace_config c) = refuse-IsLocal (codes "extract")

filter_factory-IsLocal : (pats : Patterns) (c : Config) → IsLocal (filter_factory pats c)
filter_factory-IsLocal pats (extract_config c) = refuse-IsLocal (codes "extract")
filter_factory-IsLocal pats (filter_config c) = filter-IsLocal pats c
filter_factory-IsLocal pats (replace_config c) = refuse-IsLocal (codes "extract")

replace_factory-IsLocal : (pats : Patterns) (c : Config) → IsLocal (replace_factory pats c)
replace_factory-IsLocal pats (extract_config c) = refuse-IsLocal (codes "replace")
replace_factory-IsLocal pats (filter_config c) = refuse-IsLocal (codes "replace")
replace_factory-IsLocal pats (replace_config c) = replace-IsLocal pats c

builtins_local : (pats : Patterns) → AllFactories (register_builtins pats [])
unfolding AllFactories register_builtins assign ◌==◌
builtins_local pats =
    (extract_factory-IsLocal, (filter_factory-IsLocal pats, (replace_factory-IsLocal pats, tt)))

lookup-IsLocal :
    (k : Bytes) (r : Registry) (g : Config → Func)
    → AllFactories r
    → lookup k r ≡ some g
    → (c : Config) → IsLocal (g c)
unfolding AllFactories lookup
lookup-IsLocal k [] g h p = cc
lookup-IsLocal k ((j, f) ∷ r) g h p = go (j == k) (lookup-IsLocal k r g h.1) p
  where
    go :
        (b : Bool)
        → (lookup k r ≡ some g → (c : Config) → IsLocal (g c))
        → (if b then some f else lookup k r) ≡ some g
        → (c : Config) → IsLocal (g c)
    go true rest q = let same : f ≡ g = cc in subst (λ v. (c : Config) → IsLocal (v c)) same h.0
    go false rest q = rest q

build_step-IsLocal :
    (pats : Patterns) (d : Decoders) (t : Transformation) (f : Func)
    → build_step d (register_builtins pats []) t ≡ inr f
    → IsLocal f
unfolding build_step
build_step-IsLocal pats d t f p =
    go (lookup t.type (register_builtins pats [])) (to_config d t)
      (λ g. lookup-IsLocal t.type (register_builtins pats []) g (builtins_local pats)) p
  where
    go :
        (o : Option (Config → Func)) (c : Fault ⊎ Config)
        → ((g : Config → Func) → o ≡ some g → (c : Config) → IsLocal (g c))
        → elim o as (λ _. Fault ⊎ Func) [
          | none ↦ inl (not_registered t.type)
          | some factory ↦ elim c as (λ _. Fault ⊎ Func) [ inl e ↦ inl e | inr c ↦ inr (factory c) ]
        ]
          ≡ inr f
        → IsLocal f
    go none c k q = cc
    go (some g) (inl e) k q = cc
    go (some g) (inr c) k q = let same : g c ≡ f = cc in subst IsLocal same (k g refl c)

build_chain-AllLocal :
    (pats : Patterns) (d : Decoders) (ts : List Transformation) (fs : List Func)
    → build_chain d (register_builtins pats []) ts ≡ inr fs
    → AllLocal fs
unfolding build_chain AllLocal
build_chain-AllLocal pats d [] fs p = let e : [] ≡ fs = cc in subst AllLocal e tt
build_chain-AllLocal pats d (t ∷ ts) fs p =
    let (f, gs, s, c, e) =
      push_built-inr (build_step d (register_builtins pats []) t)
        (build_chain d (register_builtins pats []) ts) fs p in
    subst AllLocal (sym e) (build_step-IsLocal pats d t f s, build_chain-AllLocal pats d ts gs c)

-- Transformations write to no array but the one behind the fields of the event that they are given,
-- and an event that passes them has that array still, whichever they are and however they end.
pub transformations_are_local :
    (pats : Patterns) (d : Decoders) (ts : List Transformation) (e : Event) (h : Heap)
    → Keeps e.schema.fields h (apply_transformations pats d ts (some e) h)
unfolding apply_transformations
transformations_are_local pats d [] e h = (λ b n. refl, refl)
transformations_are_local pats d (t ∷ ts) e h =
    go (build_chain d (register_builtins pats []) (t ∷ ts)) (build_chain-AllLocal pats d (t ∷ ts))
  where
    go :
        (c : Fault ⊎ List Func)
        → ((fs : List Func) → c ≡ inr fs → AllLocal fs)
        → Keeps e.schema.fields h (run_built c e h)
    go (inl x) k = λ b n. refl
    go (inr fs) k = run_chain-IsLocal fs (k fs refl) e h
