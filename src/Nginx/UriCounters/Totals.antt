-- ===== src/Nginx/UriCounters/Totals.antt =====
-- What the counts of uriCounters add up to.
use topsrv.Base.{
  ℕ, ◌+◌, ◌%◌, ◌≡◌, Bool, not, List, [], ◌∷◌, none, some, Eq, arith, leb, ltb, length, keep,
  Bool-cases, Option-cases, inl, inr, ◌-◌, if◌then◌else◌,
}
use topsrv.Nginx.UriCounters.{
  UriCounter, UriCounters, find, store, sweep, bump, add_new, add, idle, hit, or_zero, u64_mod,
  uri_sweep_interval,
}

-- The sum of all counts, over the numbers without a bound.
abbrev pub total : {K : Type 0} → List (K × UriCounter) → ℕ
total [] = 0
total ((k, c) ∷ m) = c.count + total m

-- The counts that a sweep at `now` drops, if it is not throttled.
abbrev pub swept_away : {K : Type 0} → UriCounters K → ℕ → ℕ
swept_away u now =
    if ltb (now - u.last_sweep) uri_sweep_interval
    then 0
    else total (keep (λ kc. idle now kc.1) u.m)

-- The counts that a call of `add` drops: it sweeps for a new key on a full map.
abbrev pub evicted : {K : Type 0} ⦃e : Eq K⦄ → UriCounters K → K → ℕ → ℕ
evicted u key now = elim (find key u.m) [
  | some c ↦ 0
  | none ↦ if leb u.limit (length u.m) then swept_away u now else 0
]

total-keep :
    {K : Type 0} (p : K × UriCounter → Bool) (m : List (K × UriCounter))
    → total (keep (λ kc. not (p kc)) m) + total (keep p m) ≡ total m
total-keep p [] = omega arith
total-keep p ((k, c) ∷ m) = ground (arith, total-keep p m)

total-sweep :
    {K : Type 0} (u : UriCounters K) (now : ℕ)
    → total (sweep u now).m + swept_away u now ≡ total u.m
unfolding sweep
total-sweep u now = ground (arith, total-keep (λ kc. idle now kc.1) u.m)

module _ {K : Type 0} ⦃e : Eq K⦄ where
  total-store :
      (key : K) (c : UriCounter) (m : List (K × UriCounter))
      → total (store key c m) + (or_zero (find key m)).count ≡ total m + c.count
  unfolding find store
  total-store key c [] = omega arith
  total-store key c ((k, b) ∷ m) = ground (arith, total-store key c m)

  total-bump :
      (key : K) (n now : ℕ) (u : UriCounters K)
      → total (bump key n now u).m % u64_mod ≡ (total u.m + n) % u64_mod
  unfolding bump
  total-bump key n now u = omega (arith, total-store key (hit (or_zero (find key u.m)) n now) u.m)

  total-add_new :
      (u : UriCounters K) (key overflow : K) (n now : ℕ)
      → (total (add_new u key overflow n now).m
            + (if leb u.limit (length u.m) then swept_away u now else 0))
          % u64_mod
        ≡ (total u.m + n) % u64_mod
  unfolding add_new
  total-add_new u key overflow n now = elim (Bool-cases (leb u.limit (length u.m))) [
    | inl full ↦ rw full (
        omega (
          arith,
          total-sweep u now,
          total-bump (if leb (sweep u now).limit (length (sweep u now).m) then overflow else key) n
              now (sweep u now),
        ))
    | inr room ↦
        rw room
          (omega (arith, total-bump (if leb u.limit (length u.m) then overflow else key) n now u))
  ]

  -- No hit is lost: what the counters add up to after a call, with the counts that its sweep dropped,
  -- is what they added up to before and the `n` of the call, modulo 2^64. So it is on every branch:
  -- a known key, a new key with room, and the overflow bucket.
  pub total-add :
      (u : UriCounters K) (key overflow : K) (n now : ℕ)
      → (total (add u key overflow n now).m + evicted u key now) % u64_mod
        ≡ (total u.m + n) % u64_mod
  unfolding add
  total-add u key overflow n now = elim (Option-cases (find key u.m)) [
    | inl new ↦ rw (new, add, evicted) (total-add_new u key overflow n now)
    | inr (c, known) ↦ rw (known, add, evicted) (omega (arith, total-store_known u.m c known))
  ]
    where
      total-store_known :
          (m : List (K × UriCounter)) (c : UriCounter)
          → find key m ≡ some c
          → total (store key (hit c n now) m) + c.count ≡ total m + (hit c n now).count
      total-store_known m c h = rw h at (total-store key (hit c n now) m)
