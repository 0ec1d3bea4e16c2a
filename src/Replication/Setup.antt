-- ===== src/Replication/Setup.antt =====
-- pkg/pglogrepl/stream.go: Stream, and what it sets up before the loop. The commands of package
-- pglogrepl are parameters.
use pigo.Base.{
  if◌then◌else◌, ℕ, inl, inr, Bool, true, false, Option, none, some, List, [], ◌∷◌, ◌++◌,
}
use pigo.Base.Bytes.{codes, Bytes}
use pigo.Base.Int.{ltℤ, pos}
use pigo.Replication.Config.{Config, ConfigError, merge_with_defaults, validate_config}
use pigo.Replication.Publication.{Database, PublicationError, check_exists, ensure_publication}

-- IdentifySystem's XLogPos, and whether CreateReplicationSlot and StartReplication succeed
pub record Server : Type 0 where
  pub db : Database
  pub identify : Option ℕ
  pub creates_slot : Bytes → Bytes → Bool
  pub starts : Bytes → ℕ → List Bytes → Bool

pub data SetupError : Type 0 where
  bad_publication bad_slot : PublicationError → SetupError
  no_system slot_not_created not_started : SetupError

unfoldable pub ensure_slot : Server → Bytes → Bytes → Option SetupError
unfolding check_exists
ensure_slot server name plugin =
    elim (check_exists server.db (codes "pg_replication_slots") (codes "slot_name") name) [
      | inl e ↦ some (bad_slot e)
      | inr true ↦ none
      | inr false ↦ if server.creates_slot name plugin then none else some slot_not_created
    ]

abbrev pub plugin_args : Config → List Bytes
plugin_args cfg =
    codes "proto_version '4'"
    ∷ (codes "publication_names '" ++ cfg.publication ++ codes "'")
    ∷ codes "messages 'true'"
    ∷ codes "streaming 'true'"
    ∷ []

unfoldable pub setup_replication : Server → Config → Option SetupError
unfolding ensure_publication ensure_slot
setup_replication server cfg = elim (ensure_publication server.db cfg) [
  | some e ↦ some (bad_publication e)
  | none ↦ elim server.identify [
    | none ↦ some no_system
    | some position ↦ elim (ensure_slot server cfg.slot cfg.plugin) [
      | some e ↦ some e
      | none ↦ if server.starts cfg.slot position (plugin_args cfg) then none else some not_started
    ]
  ]
]

-- What Stream returns; make(chan) of a negative size panics.
pub data Started : Type 0 where
  no_connection panicked : Started
  bad_config : ConfigError → Started
  not_set_up : SetupError → Started
  streams : Config → Started

-- behind the check: the channel, then the setup
unfoldable pub open_stream : Server → Config → Started
unfolding setup_replication
open_stream server cfg =
    if ltℤ cfg.buffer_size (pos 0)
    then panicked
    else elim (setup_replication server cfg) [ some e ↦ not_set_up e | none ↦ streams cfg ]

-- A nil connection and a nil configuration are none.
unfoldable pub stream : Option Server → Option Config → Started
unfolding merge_with_defaults validate_config open_stream
stream none config = no_connection
stream (some server) config = elim (validate_config (some (merge_with_defaults config))) [
  | some e ↦ bad_config e
  | none ↦ open_stream server (merge_with_defaults config)
]
