-- ===== src/Pipeline/Transform/Extract.antt =====
-- pkg/pipeline/transform/extract.go
use pigo.Base.{none, some, List, [], ◌∷◌, is_empty, if◌then◌else◌}
use pigo.Base.Bytes.{Bytes, lookup}
use pigo.Base.Json.{Value}
use pigo.Base.Maps.{StringMap, assign}
use pigo.Pipeline.Cdc.{Image, nothing, row, other, with_before, with_after}
use pigo.Pipeline.Transform.{Func, passed, failed, invalid_extract}

pub record ExtractConfig : Type 0 where
  pub fields : List Bytes

-- the loop over the fields, with the map that it fills
unfoldable pub extract_fields : List Bytes → StringMap Value → StringMap Value → StringMap Value
extract_fields [] old new = new
extract_fields (f ∷ fields) old new = elim (lookup f old) [
  | none ↦ extract_fields fields old new
  | some v ↦ extract_fields fields old (assign f v new)
]

-- A value that is no map becomes an empty map.
unfoldable pub extract_image : List Bytes → Image → Image
extract_image fields (row m) = row (extract_fields fields m [])
extract_image fields nothing = row []
extract_image fields (other v) = row []

unfoldable pub extract : ExtractConfig → Func
extract c e h = if is_empty c.fields then (failed invalid_extract, h) else (
  passed (
      with_after (extract_image c.fields e.payload.after)
        (with_before (extract_image c.fields e.payload.before) e)),
  h,
)
