-- ===== src/Pgx/Schema.antt =====
-- Tables and columns as pkg/pgx/schema/schema.go caches them.
use pigo.Base.{Bool, ◌||◌, List}
use pigo.Base.Bytes.{Bytes, codes, ◌==◌}

-- The kinds of a type are the one-letter codes of pg_type.typtype.
pub record Column : Type 0 where
  pub name : Bytes
  pub data_type : Bytes
  pub udt_schema : Bytes
  pub udt_name : Bytes
  pub type_kind : Bytes
  pub elem_kind : Bytes
  pub is_nullable : Bool
  pub is_primary_key : Bool

pub record ForeignKey : Type 0 where
  pub column : Bytes
  pub referenced_table : Bytes
  pub referenced_column : Bytes

pub record Table : Type 0 where
  pub schema : Bytes
  pub name : Bytes
  pub type : Bytes
  pub columns : List Column
  pub primary_keys : List Bytes
  pub foreign_keys : List ForeignKey
  pub view_query : Bytes

abbrev pub kind_composite : Bytes
kind_composite = codes "c"

unfoldable pub is_composite : Column → Bool
is_composite c = c.type_kind == kind_composite || c.elem_kind == kind_composite
