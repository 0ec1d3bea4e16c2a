-- ===== src/Pgx/Pool/Active.antt =====
-- pkg/pgx/pool.go: which pool is active.
use mathlib.Core.Bool.{true≢false}
use pigo.Base.{
  ◌≡◌, refl, ap, ◌∙◌, sym, Bool, true, false, not, Option, none, some, List, [], ◌∷◌, if◌then◌else◌,
  is_empty, inl, inr, ◌⊎◌, arith, Bool-cases, Option-cases, is_some, ◌++◌,
}
use pigo.Base.Bytes.{Bytes, ◌==◌, ==_refl, lookup}
use pigo.Base.Maps.{
  StringMap, assign, remove, has_key, lookup-assign, lookup-remove_ne, lookup-assign_self, ==_comm,
  lookup-assign_ne,
}
use pigo.Pgx.Pool.{
  PoolManager, Pool, PoolError, Driver, new_pool_manager, set_active, remove_pool, close, add_pool,
  create_pool, first_name, not_pinged, panicked,
}

pub data PoolCall (C : Type 0) : Type 0 where
  add_call : Pool C → Bool → PoolCall C
  set_active_call remove_call : Bytes → PoolCall C
  close_call : PoolCall C

-- no pool is added without a name
abbrev pub AllNamed : {C : Type 0} → List (PoolCall C) → Type 0
AllNamed [] = Unit
AllNamed (add_call cfg makes_active ∷ calls) = (is_empty cfg.name ≡ false) × AllNamed calls
AllNamed (set_active_call name ∷ calls) = AllNamed calls
AllNamed (remove_call name ∷ calls) = AllNamed calls
AllNamed (close_call ∷ calls) = AllNamed calls

-- One of the pools is active where there is any, none otherwise, and no pool has the empty name.
abbrev pub IsActive : {P : Type 0} → PoolManager P → Type 0
IsActive m =
    (has_key [] m.pools ≡ false)
    × (((is_empty m.pools ≡ true) × (is_empty m.active ≡ true)) ⊎ (has_key m.active m.pools ≡ true))

module _ {C P : Type 0} (driver : Driver C P) where
  unfoldable pub run_calls : List (PoolCall C) → PoolManager P → PoolManager P
  run_calls [] m = m
  run_calls (add_call cfg makes_active ∷ calls) m =
      run_calls calls (add_pool driver cfg makes_active m).1
  run_calls (set_active_call name ∷ calls) m = run_calls calls (set_active name m).1
  run_calls (remove_call name ∷ calls) m = run_calls calls (remove_pool name m).1
  run_calls (close_call ∷ calls) m = run_calls calls (close m)

  set_active-IsActive :
      (name : Bytes) (m : PoolManager P) → IsActive m → IsActive (set_active name m).1
  unfolding set_active
  set_active-IsActive name m h = elim (Option-cases (lookup name m.pools)) [
    | inl e ↦ rw (set_active, e) h
    | inr (p, e) ↦ rw (set_active, e) (h.0, inr (ap is_some e))
  ]

  first-has_key :
      (pools : StringMap P)
      → ((is_empty pools ≡ true) × (is_empty (first_name pools) ≡ true))
        ⊎ (has_key (first_name pools) pools ≡ true)
  unfolding lookup
  first-has_key [] = inl (refl, refl)
  first-has_key ((k, p) ∷ m) = inr (ground (arith, ==_refl k))

  not_empty :
      (name : Bytes) (pools : StringMap P) (p : P)
      → lookup name pools ≡ some p
      → is_empty pools ≡ false
  unfolding lookup
  not_empty name [] p e = ground (arith, e)
  not_empty name ((k, q) ∷ m) p e = refl

  -- a key of a map without the empty key
  named :
      (name : Bytes) (pools : StringMap P)
      → has_key [] pools ≡ false
      → has_key name pools ≡ true
      → (name == []) ≡ false
  unfolding ◌==◌
  named [] pools h k = absurd (true≢false (sym k ∙ h))
  named (c ∷ name) pools h k = refl

  remaining-IsActive :
      (name : Bytes) (m : PoolManager P) (p : P)
      → IsActive m
      → lookup name m.pools ≡ some p
      → (b : Bool) → (m.active == name) ≡ b
      → IsActive (record m {
        pools = remove name m.pools;
        active = if b then first_name (remove name m.pools) else m.active;
        closed = m.closed ++ p ∷ [];
      })
  remaining-IsActive name m p h e b eq =
      let no_empty =
        ap is_some (lookup-remove_ne name [] m.pools (named name m.pools h.0 (ap is_some e)))
        ∙ h.0 in
      (no_empty, go b eq)
    where
      go :
          (b : Bool)
          → (m.active == name) ≡ b
          → ((is_empty (remove name m.pools) ≡ true)
              × (is_empty (if b then first_name (remove name m.pools) else m.active) ≡ true))
            ⊎ (has_key
                  (if b then first_name (remove name m.pools) else m.active)
                  (remove name m.pools)
                ≡ true)
      go true eq' = first-has_key (remove name m.pools)
      go false eq' = elim h.1 [
        | inl none_left ↦ absurd (true≢false (sym none_left.0 ∙ not_empty name m.pools p e))
        | inr there ↦ inr (
            ap is_some (lookup-remove_ne name m.active m.pools (==_comm m.active name eq')) ∙ there)
      ]

  remove_pool-IsActive :
      (name : Bytes) (m : PoolManager P) → IsActive m → IsActive (remove_pool name m).1
  unfolding remove_pool
  remove_pool-IsActive name m h = elim (Option-cases (lookup name m.pools)) [
    | inl e ↦ rw (remove_pool, e) h
    | inr (p, e) ↦ rw (remove_pool, e) (remaining-IsActive name m p h e (m.active == name) refl)
  ]

  added-IsActive :
      (name : Bytes) (p : P) (makes_active : Bool) (m : PoolManager P)
      → is_empty name ≡ false
      → IsActive m
      → IsActive (record m {
        pools = assign name p m.pools;
        active = if makes_active then name else if is_empty m.active then name else m.active;
      })
  unfolding ◌==◌
  added-IsActive [] p makes_active m n h = ground (arith, n)
  added-IsActive (c ∷ name) p makes_active m n h = (
    ap is_some (lookup-assign_ne (c ∷ name) [] p m.pools refl) ∙ h.0,
    inr (go makes_active (is_empty m.active) refl),
  )
    where
      mine : has_key (c ∷ name) (assign (c ∷ name) p m.pools) ≡ true
      mine = ap is_some (lookup-assign_self (c ∷ name) p m.pools)

      kept :
          (o : Option P) → is_some o ≡ true → (b : Bool) → is_some (if b then some p else o) ≡ true
      kept o k true = refl
      kept o k false = k

      go :
          (a b : Bool)
          → is_empty m.active ≡ b
          → has_key
              (if a then c ∷ name else if b then c ∷ name else m.active)
              (assign (c ∷ name) p m.pools)
            ≡ true
      go true b e = mine
      go false true e = mine
      go false false e = elim h.1 [
        | inl nothing ↦ absurd (true≢false (sym nothing.1 ∙ e))
        | inr there ↦
            ap is_some (lookup-assign (c ∷ name) m.active p m.pools)
            ∙ kept (lookup m.active m.pools) there ((c ∷ name) == m.active)
      ]

  add_pool-IsActive :
      (cfg : Pool C) (makes_active : Bool) (m : PoolManager P)
      → is_empty cfg.name ≡ false
      → IsActive m
      → IsActive (add_pool driver cfg makes_active m).1
  unfolding add_pool
  add_pool-IsActive cfg makes_active m n h = elim (Option-cases (lookup cfg.name m.pools)) [
    | inr (p, e) ↦ rw (add_pool, e) h
    | inl e ↦ rw (add_pool, e) (go (create_pool driver cfg))
  ]
    where
      go :
          (r : PoolError ⊎ (P × Bool))
          → IsActive
              (elim r as (λ _. Option PoolError × PoolManager P) [
                | inl x ↦ (some x, m)
                | inr (pool, pinged) ↦
                    if not pinged
                    then (some not_pinged, record m { closed = m.closed ++ pool ∷ [] })
                    else if m.is_closed
                    then (some panicked, m)
                    else (
                      none,
                      record m {
                        pools = assign cfg.name pool m.pools;
                        active =
                            if makes_active
                            then cfg.name
                            else if is_empty m.active
                            then cfg.name
                            else m.active;
                      },
                    )
              ]).1
      go (inl x) = h
      go (inr (pool, false)) = h
      go (inr (pool, true)) = elim (Bool-cases m.is_closed) [
        | inl e ↦ rw e h
        | inr e ↦ rw e (added-IsActive cfg.name pool makes_active m n h)
      ]

  run_calls-IsActive :
      (calls : List (PoolCall C)) (m : PoolManager P)
      → AllNamed calls
      → IsActive m
      → IsActive (run_calls calls m)
  unfolding run_calls close lookup
  run_calls-IsActive [] m n h = h
  run_calls-IsActive (add_call cfg makes_active ∷ calls) m n h =
      run_calls-IsActive calls _ n.1 (add_pool-IsActive cfg makes_active m n.0 h)
  run_calls-IsActive (set_active_call name ∷ calls) m n h =
      run_calls-IsActive calls _ n (set_active-IsActive name m h)
  run_calls-IsActive (remove_call name ∷ calls) m n h =
      run_calls-IsActive calls _ n (remove_pool-IsActive name m h)
  run_calls-IsActive (close_call ∷ calls) m n h =
      run_calls-IsActive calls _ n (refl, inl (refl, refl))

  -- After any calls of Add, SetActive, Remove and Close on a new manager, with errors and panics among
  -- them, where no pool is added without a name: one of the pools is active if there is any, none
  -- otherwise.
  pub new_pool_manager-IsActive :
      (calls : List (PoolCall C)) → AllNamed calls → IsActive (run_calls calls new_pool_manager)
  unfolding new_pool_manager lookup
  new_pool_manager-IsActive calls n =
      run_calls-IsActive calls new_pool_manager n (refl, inl (refl, refl))
