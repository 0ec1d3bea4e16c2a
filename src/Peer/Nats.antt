-- ===== src/Peer/Nats.antt =====
-- pkg/pipeline/peer/nats/peer.go: events over a NATS stream. The server, the JSON of an event and the
-- options of a connection are parameters.
use pigo.Base.{
  eqb, if◌then◌else◌, ltb, length, take, is_empty, drop, ℕ, Bool, true, false, not, ◌&&◌, Option,
  none, some, List, [], ◌∷◌, ◌++◌,
}
use pigo.Base.Bytes.{Bytes, ◌==◌, codes}
use pigo.Pipeline.Cdc.{Event}
pub mod Deliveries

-- the fields that the code reads; whether TLS is on, and its files
pub record Config : Type 0 where
  pub servers : List Bytes
  pub stream : Bytes
  pub subject_prefix : Bytes
  pub username : Bytes
  pub password : Bytes
  pub tls_enabled : Bool
  pub cert_file : Bytes
  pub key_file : Bytes
  pub ca_file : Bytes

abbrev pub or_default : Bytes → Bytes → Bytes
or_default s default = if is_empty s then default else s

-- Connect's defaults; `default_url` is nats.DefaultURL
unfoldable pub with_defaults : Bytes → Config → Config
with_defaults default_url c =
    let prefix = or_default c.subject_prefix (codes "pigo") in
    record c {
      servers = if is_empty c.servers then default_url ∷ [] else c.servers;
      subject_prefix = prefix;
      stream = or_default c.stream (prefix ++ codes "-stream");
    }

abbrev pub subject_of : Config → Bytes
subject_of c = c.subject_prefix ++ codes ".>"

-- the loop over the servers: the first that connects
unfoldable pub first_connected : (Bytes → Bool) → List Bytes → Option Bytes
first_connected connects [] = none
first_connected connects (s ∷ ss) =
    let later = first_connected connects ss in if connects s then some s else later

-- Options behind those that are always set.
pub data ConnectOption : Type 0 where
  user_info : (username password : Bytes) → ConnectOption
  root_cas : Bytes → ConnectOption
  client_cert : (cert key : Bytes) → ConnectOption

abbrev pub tls_options : Config → List ConnectOption
tls_options c =
    if not c.tls_enabled
    then []
    else if not (is_empty c.ca_file)
    then root_cas c.ca_file ∷ []
    else if not (is_empty c.cert_file) && not (is_empty c.key_file)
    then client_cert c.cert_file c.key_file ∷ []
    else []

unfoldable pub connect_options : Config → List ConnectOption
connect_options c =
    (if not (is_empty c.username) && not (is_empty c.password)
      then user_info c.username c.password ∷ []
      else [])
    ++ tls_options c

-- nats.StreamConfig, with its storage as a number
pub record StreamConfig : Type 0 where
  pub name : Bytes
  pub subjects : List Bytes
  pub storage : ℕ
  pub replicas : ℕ

-- the loop over the subjects, of lists of one length
unfoldable pub subjects_equal : List Bytes → List Bytes → Bool
subjects_equal [] [] = true
subjects_equal [] (t ∷ ts) = false
subjects_equal (s ∷ ss) [] = false
subjects_equal (s ∷ ss) (t ∷ ts) = s == t && subjects_equal ss ts

unfoldable pub stream_config_equal : StreamConfig → StreamConfig → Bool
unfolding subjects_equal
stream_config_equal a b =
    a.name == b.name
    && eqb a.storage b.storage
    && eqb a.replicas b.replicas
    && subjects_equal a.subjects b.subjects

-- `file_storage` is nats.FileStorage.
abbrev pub stream_config : ℕ → Config → StreamConfig
stream_config file_storage c = record {
  name = c.stream;
  subjects = subject_of c ∷ [];
  storage = file_storage;
  replicas = 1;
}

-- StreamInfo: a stream, nats.ErrStreamNotFound, or another error
pub data StreamInfo : Type 0 where
  found : StreamConfig → StreamInfo
  not_found no_info : StreamInfo

pub data StreamCall : Type 0 where
  update_stream add_stream : StreamConfig → StreamCall

-- ensureStream: whether it succeeds, and the call that it makes
unfoldable pub ensure_stream :
    ℕ → StreamInfo → (StreamCall → Bool) → Config → Bool × Option StreamCall
unfolding stream_config_equal
ensure_stream file_storage (found current) succeeds c =
    if stream_config_equal current (stream_config file_storage c) then (true, none) else (
      succeeds (update_stream (stream_config file_storage c)),
      some (update_stream (stream_config file_storage c)),
    )
ensure_stream file_storage not_found succeeds c = (
  succeeds (add_stream (stream_config file_storage c)),
  some (add_stream (stream_config file_storage c)),
)
ensure_stream file_storage no_info succeeds c = (false, none)

-- Pub: none where there is no JetStream context or no JSON; else the subject and the data
unfoldable pub publication : Bool → (Event → Option Bytes) → Config → Event → Option (Bytes × Bytes)
publication has_stream marshal c e = if not has_stream then none else elim (marshal e) [
  | none ↦ none
  | some data_bytes ↦ some (
    c.subject_prefix
        ++ codes "."
        ++ e.payload.source.schema
        ++ codes "."
        ++ e.payload.source.table
        ++ codes "."
        ++ e.payload.op,
    data_bytes,
  )
]

pub data Answer : Type 0 where
  ack nak : Answer

-- The channel of the events, with room for 100, and the answers to the messages, in order.
pub record Consumer : Type 0 where
  pub queue : List Event
  pub answered : List (Bytes × Answer)

-- the body of processMessages' loop over the messages that were fetched
unfoldable pub process_message : (Bytes → Option Event) → Bytes → Consumer → Consumer
process_message unmarshal msg s = elim (unmarshal msg) [
  | none ↦ record s { answered = s.answered ++ (msg, nak) ∷ [] }
  | some event ↦
      if ltb (length s.queue) 100
      then record { queue = s.queue ++ event ∷ []; answered = s.answered ++ (msg, ack) ∷ [] }
      else record s { answered = s.answered ++ (msg, nak) ∷ [] }
]

-- The reader of the channel takes an event between two messages, or none.
pub data Step : Type 0 where
  message : Bytes → Step
  reads : Step

unfoldable pub consume :
    (Bytes → Option Event) → List Step → Consumer → List Event → Consumer × List Event
unfolding process_message
consume unmarshal [] s taken = (s, taken)
consume unmarshal (message msg ∷ steps) s taken =
    consume unmarshal steps (process_message unmarshal msg s) taken
consume unmarshal (reads ∷ steps) s taken =
    consume unmarshal steps (record s { queue = drop 1 s.queue }) (taken ++ take 1 s.queue)
