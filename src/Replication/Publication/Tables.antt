-- ===== src/Replication/Publication/Tables.antt =====
-- pkg/pglogrepl/stream.go: which tables a publication has.
use mathlib.Core.List.{append_assoc, append-nil}
use pigo.Base.{
  ◌≡◌, refl, Bool, false, ◌||◌, none, some, List, [], ◌∷◌, ◌++◌, is_empty, any, arith, Option-cases,
  inr, inl,
}
use pigo.Base.Bytes.{Bytes, codes, ◌==◌}
use pigo.Replication.Config.{Config}
use pigo.Replication.Publication.{
  TablePattern, schema_of_pattern, parse_patterns, parse_publication_tables, publication_objects,
  create_statement,
}

abbrev pub is_all : Bytes → Bool
is_all p = p == codes "*" || p == codes "*.*"

-- the schemas that patterns name, and the patterns that are tables
abbrev pub schemas_of : List Bytes → List Bytes
schemas_of [] = []
schemas_of (p ∷ ps) = elim (schema_of_pattern p) [
  | some s ↦ s ∷ schemas_of ps
  | none ↦ schemas_of ps
]

abbrev pub tables_of : List Bytes → List Bytes
tables_of [] = []
tables_of (p ∷ ps) = elim (schema_of_pattern p) [ some s ↦ tables_of ps | none ↦ p ∷ tables_of ps ]

parse_patterns-collects :
    (ps : List Bytes) (tp : TablePattern)
    → any is_all ps ≡ false
    → parse_patterns ps tp ≡ record {
      all_tables = tp.all_tables;
      schemas = tp.schemas ++ schemas_of ps;
      tables = tp.tables ++ tables_of ps;
    }
unfolding parse_patterns
parse_patterns-collects [] tp h = rw (append-nil tp.schemas, append-nil tp.tables) refl
parse_patterns-collects (p ∷ ps) tp h =
    let here : is_all p ≡ false = ground (arith, h) in
    let there : any is_all ps ≡ false = ground (arith, h) in
    elim (Option-cases (schema_of_pattern p)) [
      | inr (s, e) ↦
          rw (here, schemas_of, tables_of, e, ← append_assoc tp.schemas (s ∷ []) (schemas_of ps))
            (parse_patterns-collects ps (record tp { schemas = tp.schemas ++ s ∷ [] }) there)
      | inl e ↦
          rw (here, schemas_of, tables_of, e, ← append_assoc tp.tables (p ∷ []) (tables_of ps))
            (parse_patterns-collects ps (record tp { tables = tp.tables ++ p ∷ [] }) there)
    ]

patterns_parsed :
    (ps : List Bytes)
    → any is_all ps ≡ false
    → parse_publication_tables ps
      ≡ record { all_tables = false; schemas = schemas_of ps; tables = tables_of ps }
unfolding parse_publication_tables
patterns_parsed ps h =
    parse_patterns-collects ps (record { all_tables = false; schemas = []; tables = [] }) h

schemas_win :
    (ss ts us : List Bytes)
    → is_empty ss ≡ false
    → publication_objects (record { all_tables = false; schemas = ss; tables = ts })
      ≡ publication_objects (record { all_tables = false; schemas = ss; tables = us })
unfolding publication_objects
schemas_win [] ts us h = ground (arith, h)
schemas_win (s ∷ ss) ts us h = ground arith

-- Where the patterns of a configuration name a schema and none means all tables, the statement that
-- creates the publication is the same for all patterns that name the same schemas in this order:
-- the tables that are listed beside the schemas are not in it.
pub listed_tables_are_dropped :
    (cfg : Config) (generated ps qs : List Bytes)
    → any is_all ps ≡ false
    → any is_all qs ≡ false
    → is_empty (schemas_of ps) ≡ false
    → schemas_of ps ≡ schemas_of qs
    → create_statement (record cfg { tables = ps }) generated
      ≡ create_statement (record cfg { tables = qs }) generated
unfolding create_statement
listed_tables_are_dropped cfg generated ps qs a b n same =
    rw
      (
        patterns_parsed ps a,
        patterns_parsed qs b,
        ← same,
        schemas_win (schemas_of ps) (tables_of ps) (tables_of qs) n,
      )
      refl
