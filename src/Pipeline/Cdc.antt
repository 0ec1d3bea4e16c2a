-- ===== src/Pipeline/Cdc.antt =====
-- pkg/pipeline/cdc/cdc.go: change events and their builders.
use pigo.Base.{ℕ, Bool, false, Option, none, []}
use pigo.Base.Int.{ℤ, pos}
use pigo.Base.Bytes.{Bytes, codes}
use pigo.Base.Json.{Value}
use pigo.Base.Maps.{StringMap}

abbrev pub op_create : Bytes
op_create = codes "c"

abbrev pub op_update : Bytes
op_update = codes "u"

abbrev pub op_delete : Bytes
op_delete = codes "d"

abbrev pub op_read : Bytes
op_read = codes "r"

abbrev pub op_truncate : Bytes
op_truncate = codes "t"

pub record Source : Type 0 where
  pub version : Bytes
  pub connector : Bytes
  pub name : Bytes
  pub ts_ms : ℤ
  pub snapshot : Bool
  pub db : Bytes
  pub sequence : Bytes
  pub schema : Bytes
  pub table : Bytes
  pub tx_id : ℤ
  pub lsn : ℤ
  pub xmin : Option ℤ

pub record Transaction : Type 0 where
  pub id : Bytes
  pub total_order : ℤ
  pub data_collection_order : ℤ

-- What `before` and `after` hold: nil, a map, or a value of another type.
pub data Image : Type 0 where
  nothing : Image
  row : StringMap Value → Image
  other : Value → Image

pub record Payload : Type 0 where
  pub before : Image
  pub after : Image
  pub source : Source
  pub op : Bytes
  pub ts_ms : ℤ
  pub transaction : Option Transaction

-- a field's name, type, whether it is optional, its `Name`, and its own fields
mutual
  pub data Field : Type 0 where
    field : Bytes → Bytes → Bool → Bytes → Fields → Field

  pub data Fields : Type 0 where
    nil : Fields
    cons : Field → Fields → Fields

-- `fields` is a slice: copies of an event share the array behind it, so it is an address here.
pub record Schema : Type 0 where
  pub type : Bytes
  pub optional : Bool
  pub name : Bytes
  pub fields : ℕ

pub record Event : Type 0 where
  pub schema : Schema
  pub payload : Payload

-- the arrays behind the slices
abbrev pub Heap : Type 0
Heap = ℕ → Fields

-- NewSourceBuilder, and the methods on it
unfoldable pub new_source : Bytes → Bytes → Source
new_source connector name = record {
  version = codes "1.0";
  connector = connector;
  name = name;
  ts_ms = pos 0;
  snapshot = false;
  db = [];
  sequence = codes "[0,0]";
  schema = [];
  table = [];
  tx_id = pos 0;
  lsn = pos 0;
  xmin = none;
}

abbrev pub with_schema : Bytes → Source → Source
with_schema schema s = record s { schema = schema }

abbrev pub with_table : Bytes → Source → Source
with_table table s = record s { table = table }

abbrev pub with_database : Bytes → Source → Source
with_database db s = record s { db = db }

abbrev pub with_timestamp : ℤ → Source → Source
with_timestamp ts s = record s { ts_ms = ts }

abbrev pub with_transaction : ℤ → ℤ → Source → Source
with_transaction tx_id lsn s = record s { tx_id = tx_id; lsn = lsn }

-- the zero Source
abbrev pub no_source : Source
no_source = record {
  version = [];
  connector = [];
  name = [];
  ts_ms = pos 0;
  snapshot = false;
  db = [];
  sequence = [];
  schema = [];
  table = [];
  tx_id = pos 0;
  lsn = pos 0;
  xmin = none;
}

-- NewEventBuilder, whose nil slice is the address that is given, and the methods on it
unfoldable pub new_event : ℕ → Event
new_event fields = record {
  schema = record { type = codes "struct"; optional = false; name = []; fields = fields };
  payload = record {
    before = nothing;
    after = nothing;
    source = no_source;
    op = [];
    ts_ms = pos 0;
    transaction = none;
  };
}

abbrev pub with_payload : (Payload → Payload) → Event → Event
with_payload f e = record e { payload = f e.payload }

abbrev pub with_source : Source → Event → Event
with_source s e = with_payload (λ p. record p { source = s }) e

abbrev pub with_operation : Bytes → Event → Event
with_operation op e = with_payload (λ p. record p { op = op }) e

abbrev pub with_before : Image → Event → Event
with_before image e = with_payload (λ p. record p { before = image }) e

abbrev pub with_after : Image → Event → Event
with_after image e = with_payload (λ p. record p { after = image }) e

abbrev pub with_event_timestamp : ℤ → Event → Event
with_event_timestamp ts e = with_payload (λ p. record p { ts_ms = ts }) e

abbrev pub with_event_transaction : Option Transaction → Event → Event
with_event_transaction tx e = with_payload (λ p. record p { transaction = tx }) e

-- the zero Event
unfoldable pub no_event : ℕ → Event
no_event fields = record {
  schema = record { type = []; optional = false; name = []; fields = fields };
  payload = record {
    before = nothing;
    after = nothing;
    source = no_source;
    op = [];
    ts_ms = pos 0;
    transaction = none;
  };
}
