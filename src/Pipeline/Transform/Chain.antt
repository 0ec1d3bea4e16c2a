-- ===== src/Pipeline/Transform/Chain.antt =====
-- pkg/pipeline/transform/transform.go: the registry, and a chain of transformations.
use pigo.Base.{Option, none, some, List, [], ◌∷◌, if◌then◌else◌, ◌⊎◌, inl, inr}
use pigo.Base.Bytes.{Bytes, codes, ◌==◌, lookup}
use pigo.Base.Json.{Value}
use pigo.Base.Maps.{StringMap, assign}
use pigo.Pipeline.Cdc.{Event, Heap}
use pigo.Pipeline.Transform.{
  Func, Outcome, passed, skipped, failed, Fault, wrong_config, not_registered, undecodable,
  unknown_type, nil_event, Patterns,
}
use pigo.Pipeline.Transform.Filter.{FilterConfig, filter}
use pigo.Pipeline.Transform.Extract.{ExtractConfig, extract}
use pigo.Pipeline.Transform.Replace.{ReplaceConfig, replace}

-- the interface Config, with its three implementations
pub data Config : Type 0 where
  extract_config : ExtractConfig → Config
  filter_config : FilterConfig → Config
  replace_config : ReplaceConfig → Config

pub record Transformation : Type 0 where
  pub config : StringMap Value
  pub type : Bytes

-- mapstructure.Decode into each of the configurations, none where it fails
pub record Decoders : Type 0 where
  pub decode_extract : StringMap Value → Option ExtractConfig
  pub decode_filter : StringMap Value → Option FilterConfig
  pub decode_replace : StringMap Value → Option ReplaceConfig

abbrev pub Registry : Type 0
Registry = StringMap (Config → Func)

abbrev pub refuse : Bytes → Func
refuse name e h = (failed (wrong_config name), h)

abbrev pub extract_factory : Config → Func
extract_factory (extract_config c) = extract c
extract_factory _ = refuse (codes "extract")

abbrev pub filter_factory : Patterns → Config → Func
filter_factory pats (filter_config c) = filter pats c
filter_factory pats _ = refuse (codes "extract")

abbrev pub replace_factory : Patterns → Config → Func
replace_factory pats (replace_config c) = replace pats c
replace_factory pats _ = refuse (codes "replace")

-- RegisterBuiltins
unfoldable pub register_builtins : Patterns → Registry → Registry
register_builtins pats r =
    assign (codes "replace") (replace_factory pats)
      (assign (codes "filter") (filter_factory pats) (assign (codes "extract") extract_factory r))

abbrev pub decoded : Bytes → Option Config → Fault ⊎ Config
decoded name none = inl (undecodable name)
decoded name (some c) = inr c

abbrev pub map_option : {A B : Type 0} → (A → B) → Option A → Option B
map_option f none = none
map_option f (some a) = some (f a)

-- Transformation.ToConfig
unfoldable pub to_config : Decoders → Transformation → Fault ⊎ Config
to_config d t =
    if t.type == codes "extract"
    then decoded t.type (map_option extract_config (d.decode_extract t.config))
    else if t.type == codes "filter"
    then decoded t.type (map_option filter_config (d.decode_filter t.config))
    else if t.type == codes "replace"
    then decoded t.type (map_option replace_config (d.decode_replace t.config))
    else inl (unknown_type t.type)

-- one turn of the loop of Chain
unfoldable pub build_step : Decoders → Registry → Transformation → Fault ⊎ Func
build_step d r t = elim (lookup t.type r) [
  | none ↦ inl (not_registered t.type)
  | some factory ↦ elim (to_config d t) [ inl e ↦ inl e | inr c ↦ inr (factory c) ]
]

abbrev pub push_built : Fault ⊎ Func → Fault ⊎ List Func → Fault ⊎ List Func
push_built (inl e) c = inl e
push_built (inr f) (inl e) = inl e
push_built (inr f) (inr fs) = inr (f ∷ fs)

-- the loop of Chain: the first error ends it
unfoldable pub build_chain : Decoders → Registry → List Transformation → Fault ⊎ List Func
build_chain d r [] = inr []
build_chain d r (t ∷ ts) = push_built (build_step d r t) (build_chain d r ts)

abbrev pub then_run : Outcome × Heap → Func → Outcome × Heap
then_run (passed e, h) f = f e h
then_run (skipped, h) f = (skipped, h)
then_run (failed x, h) f = (failed x, h)

-- the function that Chain returns
unfoldable pub run_chain : List Func → Func
run_chain [] e h = (passed e, h)
run_chain (f ∷ fs) e h = then_run (f e h) (run_chain fs)

abbrev pub run_built : Fault ⊎ List Func → Func
run_built (inl x) e h = (failed x, h)
run_built (inr fs) e h = run_chain fs e h

-- applyTransformations of pkg/pipeline/process.go; none is a nil event
unfoldable pub apply_transformations :
    Patterns → Decoders → List Transformation → Option Event → Heap → Outcome × Heap
apply_transformations pats d [] none h = (skipped, h)
apply_transformations pats d [] (some e) h = (passed e, h)
apply_transformations pats d (t ∷ ts) none h = (failed nil_event, h)
apply_transformations pats d (t ∷ ts) (some e) h =
    run_built (build_chain d (register_builtins pats []) (t ∷ ts)) e h
