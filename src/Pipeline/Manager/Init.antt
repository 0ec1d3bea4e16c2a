-- ===== src/Pipeline/Manager/Init.antt =====
-- pkg/pipeline/manager.go: the peers that Manager.Init connects.
use pigo.Base.{
  ◌≡◌, refl, ap, ◌∙◌, sym, Bool, true, false, not, ◌&&◌, ◌||◌, Option, none, some, List, [], ◌∷◌,
  all, any, arith, if◌then◌else◌, is_some, ◌⊎◌, inl, inr,
}
use pigo.Base.Bytes.{Bytes, ◌==◌, lookup}
use pigo.Base.Maps.{assign, lookup-assign}
use pigo.Pipeline.Manager.{
  Peer, Manager, World, PeerFault, add_peer, connect_retrying, init_peer, init,
}

-- A peer can be set up: its connector is registered, its configuration can be encoded, and one of
-- the first four attempts connects.
abbrev pub is_ready : World → List Bytes → Peer → Bool
is_ready w connectors p =
    any (λ c. c == p.connector_name) connectors
    && w.encodes p.config
    && (w.connects p.name 0 || w.connects p.name 1 || w.connects p.name 2 || w.connects p.name 3)

init_peer-connectors :
    (w : World) (p : Peer) (m : Manager) → (init_peer w p m).1.connectors ≡ m.connectors
unfolding init_peer add_peer
init_peer-connectors w p m = ground arith

init_peer-is_ready :
    (w : World) (p : Peer) (m : Manager)
    → not (is_some (init_peer w p m).0) ≡ is_ready w m.connectors p
unfolding init_peer add_peer connect_retrying
init_peer-is_ready w p m = ground arith

-- Manager.Init has no error exactly where every configured peer can be set up: one that connects on
-- the fourth attempt is as good as one that connects at once.
pub init_succeeds :
    (w : World) (ps : List Peer) (m : Manager)
    → not (is_some (init w ps m).0) ≡ all (is_ready w m.connectors) ps
unfolding init
init_succeeds w [] m = refl
init_succeeds w (p ∷ ps) m =
    go (init_peer w p m) (init_peer-is_ready w p m) (init_peer-connectors w p m)
      (λ m'. init_succeeds w ps m')
  where
    go :
        (r : Option PeerFault × Manager)
        → not (is_some r.0) ≡ is_ready w m.connectors p
        → r.1.connectors ≡ m.connectors
        → ((m' : Manager) → not (is_some (init w ps m').0) ≡ all (is_ready w m'.connectors) ps)
        → not (
            is_some
              (elim r.0 as (λ _. Option PeerFault × Manager) [
                | some e ↦ (some e, r.1)
                | none ↦ init w ps r.1
              ]).0)
          ≡ (is_ready w m.connectors p && all (is_ready w m.connectors) ps)
    go (some e, m') h k ih = ap (λ b. b && all (is_ready w m.connectors) ps) h
    go (none, m') h k ih =
        ih m'
        ∙ (ap (λ c. all (is_ready w c) ps) k ∙ ap (λ b. b && all (is_ready w m.connectors) ps) h)

-- no peer that is stored has a configuration
abbrev pub IsBlank : Manager → Type 0
IsBlank m = (name : Bytes) (p : Peer) → lookup name m.peers ≡ some p → p.config ≡ []

-- the peer as AddPeer stores it
abbrev stored : Peer → Peer
stored p = record { name = p.name; connector_name = p.connector_name; config = [] }

init_peer-peers :
    (w : World) (p : Peer) (m : Manager)
    → ((init_peer w p m).1.peers ≡ m.peers)
      ⊎ ((init_peer w p m).1.peers ≡ assign p.name (stored p) m.peers)
unfolding init_peer add_peer
init_peer-peers w p m = ground arith

init_peer-IsBlank : (w : World) (p : Peer) (m : Manager) → IsBlank m → IsBlank (init_peer w p m).1
init_peer-IsBlank w p m h name q e = elim (init_peer-peers w p m) [
  | inl same ↦ h name q (ap (lookup name) (sym same) ∙ e)
  | inr new ↦
      let found : (if p.name == name then some (stored p) else lookup name m.peers) ≡ some q =
        sym (lookup-assign p.name name (stored p) m.peers) ∙ (ap (lookup name) (sym new) ∙ e) in
      go (p.name == name) found
]
  where
    go : (b : Bool) → (if b then some (stored p) else lookup name m.peers) ≡ some q → q.config ≡ []
    go true f = let same : stored p ≡ q = cc in ap (λ v. v.config) (sym same)
    go false f = h name q f

-- Init marshals and uses the configuration of each peer, but the peers that it stores have none: it
-- writes the configuration to the copy that AddPeer returns.
pub init_stores_no_config :
    (w : World) (ps : List Peer) (m : Manager) → IsBlank m → IsBlank (init w ps m).1
unfolding init
init_stores_no_config w [] m h = h
init_stores_no_config w (p ∷ ps) m h =
    go (init_peer w p m) (init_peer-IsBlank w p m h) (λ m'. init_stores_no_config w ps m')
  where
    go :
        (r : Option PeerFault × Manager)
        → IsBlank r.1
        → ((m' : Manager) → IsBlank m' → IsBlank (init w ps m').1)
        → IsBlank
            (elim r.0 as (λ _. Option PeerFault × Manager) [
              | some e ↦ (some e, r.1)
              | none ↦ init w ps r.1
            ]).1
    go (some e, m') k ih = k
    go (none, m') k ih = ih m' k
