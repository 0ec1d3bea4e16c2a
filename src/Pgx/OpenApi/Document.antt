-- ===== src/Pgx/OpenApi/Document.antt =====
-- pkg/pgx/schema/openapi.go: the whole document.
use pigo.Base.{if◌then◌else◌, is_empty, List, [], ◌∷◌, ◌++◌}
use pigo.Base.Bytes.{◌==◌, Bytes, codes}
use pigo.Base.Json.{Value}
use pigo.Base.Maps.{StringMap, assign}
use pigo.Pgx.Cache.{full_name}
use pigo.Pgx.Schema.{Table}
use pigo.Pgx.OpenApi.{OpenApiGenerator, SecurityConfig, obj, arr, say, build_table_schema}
use pigo.Pgx.OpenApi.Operations.{build_table_operations, build_record_operations}

unfoldable pub table_path : Table → Bytes
table_path table =
    if table.schema == codes "public"
    then codes "/" ++ table.name
    else codes "/" ++ table.schema ++ codes "/" ++ table.name

-- a segment in braces for each key
unfoldable pub key_segments : List Bytes → Bytes
key_segments [] = []
key_segments (k ∷ ks) = codes "/{" ++ k ++ codes "}" ++ key_segments ks

unfoldable pub build_record_path : Table → Bytes
unfolding table_path key_segments
build_record_path table = table_path table ++ key_segments table.primary_keys

unfoldable pub build_security_schemes : SecurityConfig → StringMap Value
build_security_schemes security =
    (if security.enable_jwt
      then (
        codes "bearerAuth",
        obj (
            say (codes "type") (codes "http")
            ∷ say (codes "scheme") (codes "bearer")
            ∷ say (codes "bearerFormat") (codes "JWT")
            ∷ say (codes "description")
                (codes "JWT token authentication. Use format: Bearer <token>")
            ∷ []),
      )
        ∷ []
      else [])
    ++ (if security.enable_basic
        then (
          codes "basicAuth",
          obj (
              say (codes "type") (codes "http")
              ∷ say (codes "scheme") (codes "basic")
              ∷ say (codes "description")
                  (codes "Basic HTTP authentication using username and password")
              ∷ []),
        )
          ∷ []
        else [])

unfoldable pub build_global_security : SecurityConfig → List Value
build_global_security security =
    (if security.enable_jwt then obj ((codes "bearerAuth", arr []) ∷ []) ∷ [] else [])
    ++ (if security.enable_basic then obj ((codes "basicAuth", arr []) ∷ []) ∷ [] else [])

-- the paths of a table, added to those so far
unfoldable pub add_paths : Table → StringMap Value → StringMap Value
unfolding build_record_path
add_paths table paths =
    let with_table = assign (table_path table) (build_table_operations table) paths in
    if is_empty table.primary_keys
    then with_table
    else assign (build_record_path table) (build_record_operations table) with_table

-- the loop over the tables, with the paths and the schemas so far
unfoldable pub document_tables :
    StringMap Table → StringMap Value → StringMap Value → StringMap Value × StringMap Value
unfolding add_paths
document_tables [] paths schemas = (paths, schemas)
document_tables ((k, table) ∷ tables) paths schemas =
    document_tables tables (add_paths table paths)
      (assign (full_name table) (build_table_schema table) schemas)

unfoldable pub generate_specification : OpenApiGenerator → StringMap Table → Value
unfolding document_tables build_security_schemes build_global_security
generate_specification g tables =
    let (paths, schemas) = document_tables tables [] [] in
    let schemes = build_security_schemes g.security in
    let security = build_global_security g.security in
    obj (
      say (codes "openapi") (codes "3.1.0")
      ∷ (
        codes "info",
        obj (
            say (codes "title") g.info.title
            ∷ say (codes "description") g.info.description
            ∷ say (codes "version") g.info.version
            ∷ (
              codes "contact",
              obj (
                  say (codes "name") g.info.contact_name
                  ∷ say (codes "email") g.info.contact_email
                  ∷ say (codes "url") g.info.contact_url
                  ∷ []),
            )
            ∷ []),
      )
      ∷ (
        codes "servers",
        arr (
            obj
              (say (codes "url") g.base_path ∷ say (codes "description") (codes "API Server") ∷ [])
            ∷ []),
      )
      ∷ (codes "paths", obj paths)
      ∷ (
        codes "components",
        obj (
            (codes "schemas", obj schemas)
            ∷ (if is_empty schemes then [] else (codes "securitySchemes", obj schemes) ∷ [])),
      )
      ∷ (if is_empty security then [] else (codes "security", arr security) ∷ []))
