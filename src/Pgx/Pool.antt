-- ===== src/Pgx/Pool.antt =====
-- pkg/pgx/pool.go: the manager of named connection pools.
-- A pool P and a configuration C are pgxpool's; opening and pinging one are parameters. The map of
-- pools is walked in the list's order.
use pigo.Base.{
  Bool, true, false, not, Option, none, some, List, [], ◌∷◌, ◌++◌, map, if◌then◌else◌, is_empty,
  inl, inr, ◌⊎◌,
}
use pigo.Base.Bytes.{Bytes, ◌==◌, lookup}
use pigo.Base.Maps.{StringMap, assign, remove}
pub mod Active

-- `is_closed` is a nil map, which Close leaves; `closed` are the pools on which Close was called
pub record PoolManager (P : Type 0) : Type 0 where
  pub pools : StringMap P
  pub active : Bytes
  pub is_closed : Bool
  pub closed : List P

pub record Pool (C : Type 0) : Type 0 where
  pub config : Option C
  pub name : Bytes
  pub conn_string : Bytes

pub data PoolError : Type 0 where
  already_exists not_found nothing_provided not_created not_pinged no_active : PoolError
  -- a write to the nil map
  panicked : PoolError

pub record Driver (C P : Type 0) : Type 0 where
  pub new_with_config : C → Option P
  pub new_with_string : Bytes → Option P
  pub pings : P → Bool

module _ {P : Type 0} where
  unfoldable pub new_pool_manager : PoolManager P
  new_pool_manager = record { pools = []; active = []; is_closed = false; closed = [] }

  unfoldable pub get_pool : Bytes → PoolManager P → PoolError ⊎ P
  unfolding lookup
  get_pool name m = elim (lookup name m.pools) [ none ↦ inl not_found | some pool ↦ inr pool ]

  -- none in the right is a nil pool
  unfoldable pub active_pool : PoolManager P → PoolError ⊎ Option P
  unfolding lookup
  active_pool m = if is_empty m.active then inl no_active else inr (lookup m.active m.pools)

  unfoldable pub set_active : Bytes → PoolManager P → Option PoolError × PoolManager P
  unfolding lookup
  set_active name m = elim (lookup name m.pools) [
    | none ↦ (some not_found, m)
    | some pool ↦ (none, record m { active = name })
  ]

  abbrev pub first_name : StringMap P → Bytes
  first_name [] = []
  first_name ((k, p) ∷ m) = k

  unfoldable pub remove_pool : Bytes → PoolManager P → Option PoolError × PoolManager P
  unfolding lookup remove
  remove_pool name m = elim (lookup name m.pools) [
    | none ↦ (some not_found, m)
    | some pool ↦
        let rest = remove name m.pools in
        (
          none,
          record m {
            pools = rest;
            active = if m.active == name then first_name rest else m.active;
            closed = m.closed ++ pool ∷ [];
          },
        )
  ]

  unfoldable pub close : PoolManager P → PoolManager P
  close m = record m {
    pools = [];
    active = [];
    is_closed = true;
    closed = m.closed ++ map (λ e. e.1) m.pools;
  }

  unfoldable pub list_names : PoolManager P → List Bytes
  list_names m = map (λ e. e.0) m.pools

module _ {C P : Type 0} (driver : Driver C P) where
  -- the pool, and whether Ping succeeded: where it did not, the pool is closed
  unfoldable pub create_pool : Pool C → PoolError ⊎ (P × Bool)
  create_pool cfg = elim cfg.config [
    | some c ↦ elim (driver.new_with_config c) [
      | none ↦ inl not_created
      | some p ↦ inr (p, driver.pings p)
    ]
    | none ↦
        if is_empty cfg.conn_string
        then inl nothing_provided
        else elim (driver.new_with_string cfg.conn_string) [
          | none ↦ inl not_created
          | some p ↦ inr (p, driver.pings p)
        ]
  ]

  unfoldable pub add_pool : Pool C → Bool → PoolManager P → Option PoolError × PoolManager P
  unfolding lookup assign create_pool
  add_pool cfg makes_active m = elim (lookup cfg.name m.pools) [
    | some p ↦ (some already_exists, m)
    | none ↦ elim (create_pool cfg) [
      | inl e ↦ (some e, m)
      | inr (pool, pinged) ↦
          if not pinged
          then (some not_pinged, record m { closed = m.closed ++ pool ∷ [] })
          else if m.is_closed
          then (some panicked, m)
          else (
            none,
            record m {
              pools = assign cfg.name pool m.pools;
              active =
                  if makes_active
                  then cfg.name
                  else if is_empty m.active
                  then cfg.name
                  else m.active;
            },
          )
    ]
  ]
