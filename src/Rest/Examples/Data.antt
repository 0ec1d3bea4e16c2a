-- ===== src/Rest/Examples/Data.antt =====
-- Test data: an environment that writes names in double quotes, a table, parameters and a request.
use pigo.Base.{true, false, none, some, [], ◌∷◌, ◌++◌}
use pigo.Base.Bytes.{Bytes, codes}
use pigo.Base.Json.{Value, text, number}
use pigo.Base.Utf8.{Unicode}
use pigo.Pgx.Schema.{Table, Column}
use pigo.Rest.Filter.{RawFilter}
use pigo.Rest.Filter.Sql.{Env}
use pigo.Rest.Query.{StringMap, QueryParams}
use pigo.Rest.Server.{Request, Server, Database}
use pigo.Base.Int.{pos}

-- package unicode, for texts that are ASCII
abbrev pub ascii_only : Unicode
ascii_only = record {
  letter = λ r. false;
  lower = λ s. s;
  trim_space = λ s. s;
  scan_int = λ s. none;
}

abbrev pub in_double_quotes : Bytes → Bytes
in_double_quotes s = codes "\"" ++ s ++ codes "\""

abbrev pub env : Env
env = record {
  unicode = ascii_only;
  quote_ident = in_double_quotes;
  quote_qualified = λ s t. in_double_quotes s ++ codes "." ++ in_double_quotes t;
  marshal = λ v. none;
}

abbrev pub column_of : Bytes → Bytes → Column
column_of name data_type = record {
  name = name;
  data_type = data_type;
  udt_schema = [];
  udt_name = [];
  type_kind = codes "b";
  elem_kind = [];
  is_nullable = true;
  is_primary_key = false;
}

abbrev pub people : Table
people = record {
  schema = codes "public";
  name = codes "people";
  type = codes "BASE TABLE";
  columns =
      column_of (codes "age") (codes "integer")
      ∷ column_of (codes "name") (codes "text")
      ∷ column_of (codes "data") (codes "jsonb")
      ∷ [];
  primary_keys = [];
  foreign_keys = [];
  view_query = [];
}

abbrev pub raw : Bytes → Bytes → RawFilter
raw key value = record { key = key; value = value }

abbrev pub by_age : QueryParams
by_age = record {
  select = [];
  order = [];
  limit = pos 2;
  offset = pos 1;
  filters = raw (codes "age") (codes "gt.7") ∷ [];
}

abbrev pub rename : StringMap Value
rename = (codes "name", text (codes "x")) ∷ (codes "age", number (codes "3")) ∷ []

-- the same body, walked in another order
abbrev pub rename_walked : StringMap Value
rename_walked = (codes "age", number (codes "3")) ∷ (codes "name", text (codes "x")) ∷ []

abbrev pub server : Server
server = record {
  env = env;
  base_path = codes "/api";
  tables = (codes "public.people", people) ∷ [];
}

-- a database that answers every statement with its text
abbrev pub echo : Database Bytes
echo = record {
  connects = λ r. true;
  connects_again = λ r. true;
  count = λ sql args. some 3;
  run = λ sql args. some sql;
}

abbrev pub patch : Request
patch = record {
  method = codes "PATCH";
  path = codes "/api/people";
  prefer = codes "return=representation, count=exact";
  query = (codes "age", codes "gt.7" ∷ []) ∷ [];
  body = some rename;
  role = some (codes "authn");
}
