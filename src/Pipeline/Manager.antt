-- ===== src/Pipeline/Manager.antt =====
-- pkg/pipeline: peers and connectors (peer.go, connector.go), the configuration (pipeline.go) and the
-- manager (manager.go).
pub mod Init
use pigo.Base.{
  ℕ, zero, suc, Bool, true, false, not, Option, none, some, List, [], ◌∷◌, ◌++◌, find, map, any,
  is_empty, if◌then◌else◌, ◌+◌,
}
use pigo.Base.Bytes.{Bytes, codes, ◌==◌, lookup}
use pigo.Base.Json.{Value}
use pigo.Base.Maps.{StringMap, assign, has_key}
use pigo.Pipeline.Transform.Chain.{Transformation}

pub record Peer : Type 0 where
  pub name : Bytes
  pub connector_name : Bytes
  pub config : StringMap Value

pub record Source : Type 0 where
  pub name : Bytes
  pub transformations : List Transformation

pub record Sink : Type 0 where
  pub name : Bytes
  pub transformations : List Transformation

pub record Pipeline : Type 0 where
  pub name : Bytes
  pub sources : List Source
  pub transformations : List Transformation
  pub sinks : List Sink

pub record Config : Type 0 where
  pub peers : List Peer
  pub pipelines : List Pipeline

-- Config.GetPeer and Config.GetPipeline: the first of the name
unfoldable pub config_peer : Config → Bytes → Option Peer
config_peer c name = find (λ p. p.name == name) c.peers

unfoldable pub config_pipeline : Config → Bytes → Option Pipeline
config_pipeline c name = find (λ p. p.name == name) c.pipelines

-- A pipeline that takes a source's events; its sink channels are those of the pipeline.
pub record SourceSubscription : Type 0 where
  pub pipeline_name : Bytes

-- A connector is the name that it is registered under.
pub record Manager : Type 0 where
  pub connectors : List Bytes
  pub peers : StringMap Peer
  pub subscriptions : StringMap (List SourceSubscription)

unfoldable pub new_manager : List Bytes → Manager
new_manager connectors = record { connectors = connectors; peers = []; subscriptions = [] }

unfoldable pub register_connector : Bytes → Manager → Manager
register_connector name m =
    if any (λ c. c == name) m.connectors then m else record m { connectors = name ∷ m.connectors }

pub data PeerFault : Type 0 where
  connector_not_found not_encodable not_connected : Bytes → PeerFault

-- Manager.AddPeer: the peer that is stored, of which the caller gets a copy
unfoldable pub add_peer : Bytes → Bytes → Manager → Option (Peer × Manager)
add_peer connector name m =
    if not (any (λ c. c == connector) m.connectors)
    then none
    else (let peer : Peer = record { name = name; connector_name = connector; config = [] } in
        some (peer, record m { peers = assign name peer m.peers }))

unfoldable pub get_peer : Manager → Bytes → Option Peer
get_peer m name = lookup name m.peers

-- the subscriptions of a source, nil where there is none
unfoldable pub get_subscriptions : Manager → Bytes → List SourceSubscription
get_subscriptions m source = elim (lookup source m.subscriptions) [ none ↦ [] | some subs ↦ subs ]

unfoldable pub add_subscription : Bytes → Bytes → Manager → Manager
add_subscription source pipeline m = record m {
  subscriptions =
      assign source (get_subscriptions m source ++ record { pipeline_name = pipeline } ∷ [])
        m.subscriptions;
}

unfoldable pub is_first_subscription : Manager → Bytes → Bool
is_first_subscription m source = is_empty (get_subscriptions m source)

-- Connector.Connect and json.Marshal: whether a peer's attempt, counted from 0, succeeds
pub record World : Type 0 where
  pub encodes : StringMap Value → Bool
  pub connects : Bytes → ℕ → Bool

-- the retries: at most `n` attempts from the attempt `i` on
unfoldable pub connect_retrying : World → Bytes → ℕ → ℕ → Bool
connect_retrying w name zero i = false
connect_retrying w name (suc n) i =
    let later = connect_retrying w name n (i + 1) in if w.connects name i then true else later

-- one turn of the loop of Manager.Init; the manager comes back after an error, too
unfoldable pub init_peer : World → Peer → Manager → Option PeerFault × Manager
init_peer w p m = elim (add_peer p.connector_name p.name m) [
  | none ↦ (some (connector_not_found p.name), m)
  | some (peer, m') ↦
      if not (w.encodes p.config)
      then (some (not_encodable p.name), m')
      else if not (any (λ c. c == peer.connector_name) m'.connectors)
      then (some (connector_not_found p.name), m')
      else if connect_retrying w p.name 4 0
      then (none, m')
      else (some (not_connected p.name), m')
]

-- Manager.Init
unfoldable pub init : World → List Peer → Manager → Option PeerFault × Manager
init w [] m = (none, m)
init w (p ∷ ps) m =
    let (fault, m') = init_peer w p m in elim fault [ some e ↦ (some e, m') | none ↦ init w ps m' ]
