-- ===== src/Pgx/Examples.antt =====
-- Tests and witnesses of pkg/pgx.
use pigo.Base.Bytes.{contains_byte}
use pigo.Base.Json.{Value}
use pigo.Base.Maps.{StringMap}
use pigo.Pgx.OpenApi.{obj, OpenApiGenerator}
use pigo.Pgx.OpenApi.Document.{generate_specification}
use pigo.Pgx.Crud.{insert_row}
use pigo.Pgx.Crud.Numbered.{placeholders_from, column_names}
use pigo.Base.{All, ◌≡◌, inr, ◌++◌}
use pigo.Base.Bytes.{join, decimal, ◌==◌}
use pigo.Base.Int.{pos}
use pigo.Base.Json.{text}
use pigo.Base.Maps.{assign}
use pigo.Pgx.Cache.{
  ColumnRow, Catalog, view_query_of, copy_into, load_table, new_cache, load_all, collect_columns,
  send, notified, load_schema, is_system, foreign_keys_of, reconnect_waits, reload_payload,
  full_name, Cache, query_columns, load_rows, load_schemas,
}
use pigo.Pgx.Cache.Loaded.{IsLoaded, load_all-IsLoaded}
use pigo.Pgx.Cache.Watched.{drained, reader_catches_up, last_taken}
use pigo.Pgx.Crud.{
  placeholder, new_query_builder, table_identifier, update_row, assignments, add_value, update_map,
}
use pigo.Pgx.Crud.Numbered.{numbered, writes_bind_their_values}
use pigo.Pgx.OpenApi.References.{ArePlain, HasTargets, under, references_resolve}
use pigo.Pgx.Role.{
  get_role, update_role, scan_role, create_or_alter_role, alter_config_and_password, alter_password,
}
use pigo.Pgx.Role.Passwords.{masking_statement, written_back_password_is_masked}
use pigo.Pgx.Schema.{Table}
use pigo.Pipeline.Cdc.{row}
use pigo.Base.{true, false, none, some, List, [], ◌∷◌, refl}
use pigo.Base.Bytes.{Bytes, codes}
use pigo.Pgx.Cache.{column_of}
use pigo.Pgx.Cache.Watched.{notify, sends, stop}
use pigo.Pgx.Role.{Role, scanned}
use pigo.Pgx.Pool.{Pool, Driver, new_pool_manager}
use pigo.Pgx.Pool.Active.{
  PoolCall, add_call, set_active_call, remove_call, IsActive, run_calls, new_pool_manager-IsActive,
}

-- a pool is the text that opens it, and each answers a ping
abbrev text_driver : Driver Bytes Bytes
text_driver = record {
  new_with_config = λ c. some c;
  new_with_string = λ s. some s;
  pings = λ p. true;
}

abbrev of_text : Bytes → Pool Bytes
of_text name = record { config = none; name = name; conn_string = codes "host=db" }

-- the active pool is removed, and the other becomes active
abbrev some_calls : List (PoolCall Bytes)
some_calls =
    add_call (of_text (codes "a")) false
    ∷ add_call (of_text (codes "b")) true
    ∷ set_active_call (codes "c")
    ∷ remove_call (codes "b")
    ∷ []

new_pool_manager-IsActive_example : IsActive (run_calls text_driver some_calls new_pool_manager)
new_pool_manager-IsActive_example =
    new_pool_manager-IsActive text_driver some_calls (refl, (refl, tt))

abbrev dotted_names : List Bytes → Bytes
dotted_names names = join (codes ".") names

writes_bind_their_values_example :
    ((insert_row dotted_names
        (λ sql args. some 1)
        (codes "people")
        (row ((codes "name", text (codes "Ada")) ∷ []))
        (codes "public" ∷ [])).1
      ≡ some (
        codes "INSERT INTO "
            ++ dotted_names (codes "public" ∷ codes "people" ∷ [])
            ++ codes " ("
            ++ join
                (codes ", ")
                (column_names dotted_names ((codes "name", text (codes "Ada")) ∷ []))
            ++ codes ") VALUES ("
            ++ join (codes ", ") (placeholders_from 1 ((codes "name", text (codes "Ada")) ∷ []))
            ++ codes ")",
        text (codes "Ada") ∷ [],
      ))
    × ((update_row dotted_names
          (λ sql args. some 1)
          (codes "people")
          (row ((codes "name", text (codes "Ada")) ∷ []))
          ((codes "id", text (codes "7")) ∷ [])
          (codes "public" ∷ [])).1
        ≡ some (
          codes "UPDATE "
              ++ dotted_names (codes "public" ∷ codes "people" ∷ [])
              ++ codes " SET "
              ++ join
                  (codes ", ")
                  (numbered dotted_names 1 ((codes "name", text (codes "Ada")) ∷ []))
              ++ codes " WHERE "
              ++ join
                  (codes " AND ")
                  (numbered dotted_names 2 ((codes "id", text (codes "7")) ∷ [])),
          text (codes "Ada") ∷ text (codes "7") ∷ [],
        ))
writes_bind_their_values_example =
    writes_bind_their_values dotted_names (λ sql args. some 1) (codes "people") (codes "public")
      ((codes "name", text (codes "Ada")) ∷ []) ((codes "id", text (codes "7")) ∷ []) refl refl

update_row_test :
    (update_row dotted_names
      (λ sql args. some 1)
      (codes "people")
      (row ((codes "name", text (codes "Ada")) ∷ []))
      ((codes "id", text (codes "7")) ∷ [])
      (codes "public" ∷ [])).1
    ≡ some (
      codes "UPDATE public.people SET name = $1 WHERE id = $2",
      text (codes "Ada") ∷ text (codes "7") ∷ [],
    )
unfolding update_row update_map assignments placeholder add_value decimal table_identifier
    new_query_builder join
update_row_test = refl

abbrev id_row : ColumnRow
id_row = record {
  name = codes "id";
  data_type = codes "bigint";
  udt_schema = codes "pg_catalog";
  udt_name = codes "int8";
  kind = some (codes "b");
  elem_kind = none;
  is_nullable = false;
  is_primary_key = true;
}

abbrev one_table : Catalog
one_table = record {
  schemas = some (codes "pg_catalog" ∷ codes "public" ∷ []);
  tables =
      λ schema. some (record { schema = schema; name = codes "people"; type = codes "TABLE" } ∷ []);
  view_definition = λ schema name. none;
  materialized_view_definition = λ schema name. none;
  columns = λ schema name. some (id_row ∷ []);
  foreign_keys = λ schema name. some [];
}

abbrev people : Table
people = record {
  schema = codes "public";
  name = codes "people";
  type = codes "TABLE";
  columns = column_of id_row ∷ [];
  primary_keys = codes "id" ∷ [];
  foreign_keys = [];
  view_query = [];
}

one_table_loads : load_all one_table ≡ some ((codes "public.people", people) ∷ [])
unfolding load_all load_schemas is_system load_schema load_rows load_table query_columns
    collect_columns view_query_of foreign_keys_of full_name copy_into assign ◌==◌
one_table_loads = refl

load_all-IsLoaded_example : All IsLoaded ((codes "public.people", people) ∷ [])
load_all-IsLoaded_example =
    load_all-IsLoaded one_table ((codes "public.people", people) ∷ []) one_table_loads

abbrev reloaded : Cache
reloaded = notified one_table reload_payload new_cache

reader_catches_up_example : last_taken (drained (send reloaded)).taken ≡ (send reloaded).tables
reader_catches_up_example = reader_catches_up (send reloaded) (
    notify one_table reload_payload new_cache (send reloaded) refl
      (sends reloaded (send reloaded) (stop (send reloaded))))

abbrev generator : OpenApiGenerator
generator = record {
  base_path = codes "/api";
  info = record {
    title = codes "people";
    description = [];
    version = codes "1";
    contact_name = [];
    contact_email = [];
    contact_url = [];
  };
  security = record { enable_jwt = true; enable_basic = false };
}

people_is_plain : ArePlain ((codes "public.people", people) ∷ [])
unfolding contains_byte full_name
people_is_plain = (refl, tt)

references_resolve_example :
    (paths : StringMap Value) × (under
        (codes "paths")
        (generate_specification generator ((codes "public.people", people) ∷ []))
      ≡ some (obj paths))
    × All
        (HasTargets (generate_specification generator ((codes "public.people", people) ∷ [])))
        paths
references_resolve_example =
    references_resolve generator ((codes "public.people", people) ∷ []) people_is_plain

backoff_test :
    reconnect_waits 1_000_000_000 (false ∷ false ∷ true ∷ [])
    ≡ 1_000_000_000 ∷ 2_000_000_000 ∷ 4_000_000_000 ∷ []
unfolding reconnect_waits
backoff_test = refl

abbrev web : Role
web = record {
  name = codes "web";
  superuser = false;
  inherit = true;
  create_role = false;
  create_db = false;
  can_login = true;
  replication = false;
  conn_limit = pos 5;
  password = codes "********";
  valid_until = none;
  bypass_rls = false;
  config = [];
  oid = 10;
}

web_is_read : get_role (scanned (record web { password = [] })) ≡ inr web
unfolding get_role scan_role
web_is_read = refl

-- a role with settings
abbrev with_settings : Role → Role
with_settings r = record r { conn_limit = pos 9; config = codes "search_path TO public" ∷ [] }

written_back_password_is_masked_example :
    (before : List Bytes) × ((update_role (λ name. name) (λ sql. true) (with_settings web)).1
      ≡ before ++ masking_statement (λ name. name) (codes "web") ∷ [])
    × (true ≡ true)
unfolding update_role create_or_alter_role alter_config_and_password alter_password
written_back_password_is_masked_example =
    written_back_password_is_masked (λ name. name) (λ sql. true) (record web { password = [] }) web
      with_settings web_is_read refl refl refl
