-- ===== src/Nginx/UriCounters/Eviction.antt =====
-- What an eviction of uriCounters leaves.
use topsrv.Base.{
  ℕ, ◌+◌, ◌%◌, ◌-◌, ◌≤◌, ◌<◌, ◌≡◌, not, List, [], ◌∷◌, some, Eq, arith, keep, refl, All,
  if◌then◌else◌,
}
use topsrv.Nginx.UriCounters.{
  UriCounter, UriCounters, find, store, sweep, add, idle, u64_mod, uri_sweep_interval, uri_idle_ttl,
}

module _ {K : Type 0} ⦃e : Eq K⦄ where
  find-store :
      (j key : K) (c : UriCounter) (m : List (K × UriCounter))
      → find j (store key c m) ≡ (if e.beq key j then some c else find j m)
  unfolding find store
  find-store j key c [] = refl
  find-store j key c ((k, b) ∷ m) =
      ground (arith, find-store j key c m, e.beq_iff k key, e.beq_iff k j, e.beq_iff key j)

  -- A key that is in the map is counted under its own name, however full the map is.
  pub find-add_known :
      (u : UriCounters K) (key overflow : K) (n now : ℕ) (c : UriCounter)
      → find key u.m ≡ some c
      → find key (add u key overflow n now).m
        ≡ some (record { count = (c.count + n) % u64_mod; last_seen = now })
  unfolding add
  find-add_known u key overflow n now c known =
      rw (known, add) (rw (find-store key key _ u.m, (e.beq_iff key key).1 refl))

All-keep_live :
    {K : Type 0} (now : ℕ) (m : List (K × UriCounter))
    → All (λ kc. now - kc.1.last_seen ≤ uri_idle_ttl) (keep (λ kc. not (idle now kc.1)) m)
All-keep_live now [] = tt
All-keep_live now ((k, c) ∷ m) = ground (arith, All-keep_live now m)

-- A sweep that is due leaves no counter idle for more than an hour, and the next one within a minute
-- of it does nothing.
pub sweep_lem :
    {K : Type 0} (u : UriCounters K) (now later : ℕ)
    → uri_sweep_interval ≤ now - u.last_sweep
    → later - now < uri_sweep_interval
    → All (λ kc. now - kc.1.last_seen ≤ uri_idle_ttl) (sweep u now).m
      × (sweep (sweep u now) later ≡ sweep u now)
unfolding sweep
sweep_lem u now later due soon = ground (arith, All-keep_live now u.m)
