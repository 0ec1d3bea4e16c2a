-- ===== src/Pipeline/Transform/Tables.antt =====
-- pkg/pipeline/transform/filter.go: which events a filter lets pass.
use pigo.Base.Bytes.{split_whole}
use mathlib.Core.Bool.{true≢false}
use pigo.Base.{
  sym, inl, inr, Bool-cases, ◌≡◌, refl, ap, ◌∙◌, Bool, true, false, not, ◌&&◌, ◌||◌, List, [], any,
  is_empty, arith, if◌then◌else◌,
}
use pigo.Base.Bytes.{==_sound, Bytes, codes, ◌==◌, contains_byte}
use pigo.Pipeline.Cdc.{Event, Heap, Source}
use pigo.Pipeline.Transform.{passed, skipped, Patterns}
use pigo.Pipeline.Transform.Filter.{
  FilterConfig, parse_table_ref, matches_table_ref, matches_pattern, validate_filter, filter_event,
  filter, has_star,
}

-- some table of a list is the event's
abbrev pub is_listed : Patterns → Source → List Bytes → Bool
is_listed pats s tables = any (λ t. matches_table_ref pats s (parse_table_ref t)) tables

-- The conditions of a filter, each of which holds where it is not configured.
abbrev pub lets_pass : Patterns → FilterConfig → Bytes → Source → Bool
lets_pass pats c op s =
    (is_empty c.operations || any (λ o. o == op) c.operations)
    && not (is_listed pats s c.exclude_tables)
    && (is_empty c.tables || is_listed pats s c.tables)
    && (is_empty c.table_pattern || matches_pattern pats c.table_pattern s)

-- A valid filter lets an event with a schema, a table and an operation pass as it is, exactly where
-- all configured conditions hold, and drops it otherwise: an excluded table is dropped though it is
-- included too. The heap is left as it is.
pub filter_lem :
    (pats : Patterns) (c : FilterConfig) (e : Event) (h : Heap)
    → validate_filter pats c ≡ true
    → is_empty e.payload.source.schema ≡ false
    → is_empty e.payload.source.table ≡ false
    → is_empty e.payload.op ≡ false
    → filter pats c e h
      ≡ ((if lets_pass pats c e.payload.op e.payload.source then passed e else skipped), h)
unfolding filter filter_event
filter_lem pats c e h v s t o = ground (arith, v, s, t, o)

dotted : contains_byte b'.' (codes "*.*") ≡ true
unfolding contains_byte
dotted = refl

bare_glob :
    (ref : Bytes)
    → has_star ref ≡ true
    → contains_byte b'.' ref ≡ false
    → parse_table_ref ref ≡ record { schema = []; table = ref; is_glob = true }
unfolding parse_table_ref
bare_glob ref star dot =
    let other : (ref == codes "*.*") ≡ false = elim (Bool-cases (ref == codes "*.*")) [
      | inl e ↦
          let same = ap (contains_byte b'.') (==_sound ref (codes "*.*") e) in
          absurd (true≢false (sym dotted ∙ (sym same ∙ dot)))
      | inr e ↦ e
    ] in
    ground (arith, star, other, split_whole b'.' ref dot)

-- A reference with a star and without a dot, such as users_*, matches no table of any schema, since
-- filepath.Match matches the empty pattern with the empty text only.
pub bare_glob_matches_nothing :
    (pats : Patterns) (ref : Bytes) (s : Source)
    → ((t : Bytes) → is_empty t ≡ false → pats.glob [] t ≡ false)
    → has_star ref ≡ true
    → contains_byte b'.' ref ≡ false
    → is_empty s.schema ≡ false
    → matches_table_ref pats s (parse_table_ref ref) ≡ false
unfolding matches_table_ref ◌==◌
bare_glob_matches_nothing pats ref s g star dot schema =
    rw (bare_glob ref star dot) (ground (arith, g s.schema schema))
