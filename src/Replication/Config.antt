-- ===== src/Replication/Config.antt =====
-- pkg/pglogrepl/pglogrepl.go: the configuration of a replication, its defaults and its check.
-- A duration is a count of nanoseconds.
use pigo.Base.{
  zero, suc, Bool, false, Option, none, some, List, [], ◌∷◌, if◌then◌else◌, is_empty, any, suc,
}
use pigo.Base.Bytes.{Bytes, codes, ◌==◌}
use pigo.Base.Int.{ℤ, pos, ltℤ, negsuc}
use pigo.Base.Maps.{StringMap}

pub record Config : Type 0 where
  pub publication : Bytes
  pub slot : Bytes
  pub plugin : Bytes
  pub tables : List Bytes
  pub ops : List Bytes
  pub partition_root : Bool
  pub standby_update_interval : ℤ
  pub replica_identity : StringMap Bytes
  pub buffer_size : ℤ
  pub publish_generated_columns : Bytes

abbrev pub all_ops : List Bytes
all_ops = codes "insert" ∷ codes "update" ∷ codes "delete" ∷ codes "truncate" ∷ []

abbrev pub one_second : ℤ
one_second = pos 1_000_000_000

unfoldable pub default_config : Config
default_config = record {
  publication = codes "pigo_pub";
  slot = codes "pigo_slot";
  plugin = codes "pgoutput";
  tables = [];
  ops = all_ops;
  partition_root = false;
  standby_update_interval = pos 10_000_000_000;
  replica_identity = [];
  buffer_size = pos 1000;
  publish_generated_columns = [];
}

pub data ConfigError : Type 0 where
  no_config interval_too_short : ConfigError
  invalid_operation invalid_generated_columns : Bytes → ConfigError

-- the first of the operations that is none
unfoldable pub first_invalid : List Bytes → Option Bytes
first_invalid [] = none
first_invalid (op ∷ ops) =
    let rest = first_invalid ops in if any (λ o. o == op) all_ops then rest else some op

-- none where the configuration is valid; a nil configuration is none
unfoldable pub validate_config : Option Config → Option ConfigError
unfolding first_invalid
validate_config none = some no_config
validate_config (some cfg) = elim (first_invalid cfg.ops) [
  | some op ↦ some (invalid_operation op)
  | none ↦
      if ltℤ cfg.standby_update_interval one_second
      then some interval_too_short
      else if any (λ v. v == cfg.publish_generated_columns)
          ([] ∷ codes "none" ∷ codes "stored" ∷ [])
      then none
      else some (invalid_generated_columns cfg.publish_generated_columns)
]

-- cmp.Or of two strings, and of two numbers
abbrev pub or_text : Bytes → Bytes → Bytes
or_text s default = if is_empty s then default else s

abbrev pub or_number : ℤ → ℤ → ℤ
or_number (pos zero) default = default
or_number (pos (suc n)) default = pos (suc n)
or_number (negsuc n) default = negsuc n

unfoldable pub merge_with_defaults : Option Config → Config
unfolding default_config
merge_with_defaults none = default_config
merge_with_defaults (some cfg) = record cfg {
  ops = if is_empty cfg.ops then default_config.ops else cfg.ops;
  publication = or_text cfg.publication default_config.publication;
  slot = or_text cfg.slot default_config.slot;
  plugin = or_text cfg.plugin default_config.plugin;
  standby_update_interval =
      or_number cfg.standby_update_interval default_config.standby_update_interval;
  buffer_size = or_number cfg.buffer_size default_config.buffer_size;
}
