-- ===== src/Nginx/UriCounters/Size.antt =====
-- The bound on the map of uriCounters: the keys that are no overflow bucket stay within the limit.
use topsrv.Base.{
  ℕ, suc, ◌≤◌, ◌≡◌, Bool, true, not, List, [], ◌∷◌, some, Eq, arith, leb, length, keep, Bool-cases,
  Option-cases, inl, inr, length-keep-le, if◌then◌else◌,
}
use topsrv.Nginx.UriCounters.{
  UriCounter, UriCounters, find, store, sweep, bump, add_new, add, idle, hit, or_zero,
}

module _ {K : Type 0} (special : K → Bool) where
  -- How many keys of the map are no overflow bucket.
  abbrev pub ordinary : List (K × UriCounter) → ℕ
  ordinary m = length (keep (λ kc. not (special kc.0)) m)

  ordinary-keep :
      (p : K × UriCounter → Bool) (m : List (K × UriCounter)) → ordinary (keep p m) ≤ ordinary m
  ordinary-keep p [] = omega arith
  ordinary-keep p ((k, c) ∷ m) = ground (arith, ordinary-keep p m)

  ordinary-sweep : (u : UriCounters K) (now : ℕ) → ordinary (sweep u now).m ≤ ordinary u.m
  unfolding sweep
  ordinary-sweep u now = ground (arith, ordinary-keep (λ kc. not (idle now kc.1)) u.m)

  limit-sweep : (u : UriCounters K) (now : ℕ) → (sweep u now).limit ≡ u.limit
  unfolding sweep
  limit-sweep u now = ground arith

  module _ ⦃e : Eq K⦄ where
    ordinary-store_found :
        (key : K) (c d : UriCounter) (m : List (K × UriCounter))
        → find key m ≡ some d
        → ordinary (store key c m) ≡ ordinary m
    unfolding find store
    ordinary-store_found key c d [] h = cc
    ordinary-store_found key c d ((k, b) ∷ m) h = ground (arith, ordinary-store_found key c d m)

    ordinary-store_le :
        (key : K) (c : UriCounter) (m : List (K × UriCounter))
        → ordinary (store key c m) ≤ suc (ordinary m)
    unfolding store
    ordinary-store_le key c [] = ground arith
    ordinary-store_le key c ((k, b) ∷ m) = ground (arith, ordinary-store_le key c m)

    ordinary-store_special :
        (key : K) (c : UriCounter) (m : List (K × UriCounter))
        → special key ≡ true
        → ordinary (store key c m) ≡ ordinary m
    unfolding store
    ordinary-store_special key c [] h = ground arith
    ordinary-store_special key c ((k, b) ∷ m) h =
        ground (arith, ordinary-store_special key c m h, e.beq_iff k key)

    -- A new key is let in only while there is room, and goes to the overflow bucket otherwise.
    ordinary-bump :
        (s : UriCounters K) (key overflow : K) (n now : ℕ)
        → special overflow ≡ true
        → ordinary s.m ≤ s.limit
        → ordinary (bump (if leb s.limit (length s.m) then overflow else key) n now s).m ≤ s.limit
    unfolding bump
    ordinary-bump s key overflow n now h le = elim (Bool-cases (leb s.limit (length s.m))) [
      | inl full ↦ rw full (rw (ordinary-store_special overflow _ s.m h) le)
      | inr room ↦ rw room (
          ground (
            arith,
            ordinary-store_le key (hit (or_zero (find key s.m)) n now) s.m,
            length-keep-le (λ kc. not (special kc.0)) s.m,
          ))
    ]

    ordinary-add_new :
        (u : UriCounters K) (key overflow : K) (n now : ℕ)
        → special overflow ≡ true
        → ordinary u.m ≤ u.limit
        → ordinary (add_new u key overflow n now).m ≤ u.limit
    unfolding add_new
    ordinary-add_new u key overflow n now h le = elim (Bool-cases (leb u.limit (length u.m))) [
      | inl full ↦ rw full (
          omega (
            arith,
            limit-sweep u now,
            ordinary-sweep u now,
            ordinary-bump (sweep u now) key overflow n now h
                (omega (arith, limit-sweep u now, ordinary-sweep u now)),
          ))
      | inr room ↦ rw room (ordinary-bump u key overflow n now h le)
    ]

    -- However many keys are added, at most `limit` keys other than the overflow buckets are stored,
    -- if that held before and the overflow key of the call is one of the buckets.
    pub ordinary-add :
        (u : UriCounters K) (key overflow : K) (n now : ℕ)
        → special overflow ≡ true
        → ordinary u.m ≤ u.limit
        → ordinary (add u key overflow n now).m ≤ u.limit
    unfolding add
    ordinary-add u key overflow n now h le = elim (Option-cases (find key u.m)) [
      | inl new ↦ rw (new, add) (ordinary-add_new u key overflow n now h le)
      | inr (c, known) ↦
          rw (known, add) (rw (ordinary-store_found key (hit c n now) c u.m known) le)
    ]
