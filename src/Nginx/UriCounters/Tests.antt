-- ===== src/Nginx/UriCounters/Tests.antt =====
-- Runs of uriCounters, and the theorems about it at concrete maps.
use topsrv.Base.{
  ◌+◌, ◌%◌, ◌≤◌, ◌≡◌, Bool, [], ◌∷◌, some, none, Text, codes, same, text_eq, refl, arith,
}
use topsrv.Nginx.UriCounters.{
  UriCounter, UriCounters, add, sweep, find, store, bump, add_new, u64_mod,
}
use topsrv.Nginx.UriCounters.Size
use topsrv.Nginx.UriCounters.Totals
use topsrv.Nginx.UriCounters.Eviction

abbrev other : Text
other = codes "/:other"

abbrev is_other : Text → Bool
is_other = same other

-- A map of one slot, taken by /a, which was hit at second 100.
abbrev full : UriCounters Text
full = record {
  m = (codes "/a", record { count = 2; last_seen = 100 }) ∷ [];
  limit = 1;
  last_sweep = 0;
}

abbrev live : UriCounter
live = record { count = 2; last_seen = 100 }

-- While /a is live, /b goes to the overflow bucket; an hour and a second later it takes the slot.
overflow_then_slot :
    (find other (add full (codes "/b") other 1 200).m
      ≡ some (record { count = 1; last_seen = 200 }))
    × (find (codes "/b") (add full (codes "/b") other 1 200).m ≡ none)
    × ((add full (codes "/b") other 1 3701).m
        ≡ (codes "/b", record { count = 1; last_seen = 3701 }) ∷ [])
unfolding add add_new bump sweep find store same
overflow_then_slot = (refl, refl, refl)

ordinary-add_example : Size.ordinary is_other (add full (codes "/b") other 1 200).m ≤ 1
ordinary-add_example =
    Size.ordinary-add is_other full (codes "/b") other 1 200 (unfold same in refl)
      (unfold same in omega arith)

total-add_example :
    (Totals.total (add full (codes "/b") other 7 3701).m + Totals.evicted full (codes "/b") 3701)
      % u64_mod
    ≡ (Totals.total full.m + 7) % u64_mod
total-add_example = Totals.total-add full (codes "/b") other 7 3701
