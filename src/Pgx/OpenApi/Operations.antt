-- ===== src/Pgx/OpenApi/Operations.antt =====
-- pkg/pgx/schema/openapi.go: the operations of a table and of its records.
use pigo.Base.{true, [], ◌∷◌, ◌++◌}
use pigo.Base.Bytes.{Bytes, codes}
use pigo.Base.Json.{text, Value, bool}
use pigo.Base.Maps.{StringMap}
use pigo.Pgx.Cache.{full_name}
use pigo.Pgx.Schema.{Table}
use pigo.Pgx.OpenApi.{obj, arr, say, build_primary_key_parameters, build_query_parameters}

-- what the operations share: a reference to the table's schema, the content that has it, responses that
-- are a description, and the tags
unfoldable pub reference : Table → Value
unfolding full_name
reference table = obj (say (codes "$ref") (codes "#/components/schemas/" ++ full_name table) ∷ [])

unfoldable pub content_of : Value → Bytes × Value
content_of schema =
    (codes "content", obj ((codes "application/json", obj ((codes "schema", schema) ∷ [])) ∷ []))

abbrev pub described : Bytes → Bytes → Bytes × Value
described status description = (status, obj (say (codes "description") description ∷ []))

unfoldable pub tags_of : Table → Bytes × Value
tags_of table = (codes "tags", arr (text table.schema ∷ []))

unfoldable pub request_body : Table → Bytes × Value
unfolding content_of reference
request_body table =
    (codes "requestBody", obj (content_of (reference table) ∷ (codes "required", bool true) ∷ []))

abbrev pub dotted_name : Table → Bytes
dotted_name table = table.schema ++ codes "." ++ table.name

-- the document's operations: a response with content, and those that are only described
abbrev pub answers : Bytes → Bytes → Value → StringMap Value → Bytes × Value
answers status description schema others = (
  codes "responses",
  obj ((status, obj (say (codes "description") description ∷ content_of schema ∷ [])) ∷ others),
)

unfoldable pub build_table_operations : Table → Value
unfolding reference content_of request_body tags_of
build_table_operations table = obj (
    (
      codes "get",
      obj (
          say (codes "summary") (codes "List " ++ table.name ++ codes " records")
          ∷ say (codes "description") (codes "Retrieves records from " ++ dotted_name table)
          ∷ (codes "parameters", build_query_parameters table)
          ∷ answers (codes "200") (codes "Success")
              (obj (say (codes "type") (codes "array") ∷ (codes "items", reference table) ∷ []))
              (described (codes "400") (codes "Bad Request")
                ∷ described (codes "401") (codes "Unauthorized")
                ∷ described (codes "403") (codes "Forbidden")
                ∷ described (codes "404") (codes "Not Found")
                ∷ [])
          ∷ tags_of table
          ∷ []),
    )
    ∷ (
      codes "post",
      obj (
          say (codes "summary") (codes "Create " ++ table.name ++ codes " record")
          ∷ say (codes "description") (codes "Creates a new record in " ++ dotted_name table)
          ∷ request_body table
          ∷ answers (codes "201") (codes "Created") (reference table) (
              described (codes "400") (codes "Bad Request")
              ∷ described (codes "401") (codes "Unauthorized")
              ∷ described (codes "403") (codes "Forbidden")
              ∷ described (codes "409") (codes "Conflict")
              ∷ [])
          ∷ tags_of table
          ∷ []),
    )
    ∷ [])

abbrev pub refusals : StringMap Value
refusals =
    described (codes "401") (codes "Unauthorized")
    ∷ described (codes "403") (codes "Forbidden")
    ∷ described (codes "404") (codes "Not Found")
    ∷ []

unfoldable pub build_record_operations : Table → Value
unfolding reference content_of request_body tags_of
build_record_operations table = obj (
    (
      codes "get",
      obj (
          say (codes "summary") (codes "Get " ++ table.name ++ codes " record")
          ∷ say (codes "description") (
              codes "Retrieves a single record from "
              ++ dotted_name table
              ++ codes " by primary key")
          ∷ (codes "parameters", build_primary_key_parameters table)
          ∷ answers (codes "200") (codes "Success") (reference table) refusals
          ∷ tags_of table
          ∷ []),
    )
    ∷ (
      codes "patch",
      obj (
          say (codes "summary") (codes "Update " ++ table.name ++ codes " record")
          ∷ say (codes "description")
              (codes "Updates a record in " ++ dotted_name table ++ codes " by primary key")
          ∷ (codes "parameters", build_primary_key_parameters table)
          ∷ request_body table
          ∷ answers (codes "200") (codes "Success") (reference table)
              (described (codes "400") (codes "Bad Request") ∷ refusals)
          ∷ tags_of table
          ∷ []),
    )
    ∷ (
      codes "delete",
      obj (
          say (codes "summary") (codes "Delete " ++ table.name ++ codes " record")
          ∷ say (codes "description")
              (codes "Deletes a record from " ++ dotted_name table ++ codes " by primary key")
          ∷ (codes "parameters", build_primary_key_parameters table)
          ∷ (codes "responses", obj (described (codes "200") (codes "Success") ∷ refusals))
          ∷ tags_of table
          ∷ []),
    )
    ∷ [])
