-- ===== src/Nginx/UriCounters.antt =====
-- internal/topsrv/nginx/uricounters.go: the bounded counters with idle eviction.
-- The Go map is an association list whose keys are distinct; a uint64 count keeps its wrap-around.
-- Times are Unix seconds, which are positive; `-` stops at 0, and both tests on a difference of
-- times ask whether it passes a positive bound, so a clock that went back answers as in the code.
pub mod Size
pub mod Totals
pub mod Eviction
mod Tests
use topsrv.Base.{
  ℕ, suc, ◌+◌, ◌-◌, ◌*◌, ◌%◌, ◌^◌, Bool, not, List, [], ◌∷◌, Option, none, some, Eq, ltb, leb,
  length, keep, if◌then◌else◌,
}

abbrev pub u64_mod : ℕ
u64_mod = 2 ^ 64

-- uriIdleTTL: an hour without hits.
abbrev pub uri_idle_ttl : ℕ
uri_idle_ttl = 3600

-- uriSweepInterval: at most one full sweep in a minute.
abbrev pub uri_sweep_interval : ℕ
uri_sweep_interval = 60

pub record UriCounter : Type 0 where
  pub count : ℕ
  pub last_seen : ℕ

pub record UriCounters (K : Type 0) : Type 0 where
  pub m : List (K × UriCounter)
  pub limit : ℕ
  pub last_sweep : ℕ

pub new_uri_counters : {K : Type 0} → ℕ → UriCounters K
new_uri_counters limit = record { m = []; limit = limit; last_sweep = 0 }

module _ {K : Type 0} ⦃e : Eq K⦄ where
  -- e, ok := m[key]
  pub find : K → List (K × UriCounter) → Option UriCounter
  find key [] = none
  find key ((k, c) ∷ m) = if e.beq k key then some c else find key m

  -- m[key] = c
  pub store : K → UriCounter → List (K × UriCounter) → List (K × UriCounter)
  store key c [] = (key, c) ∷ []
  store key c ((k, d) ∷ m) = if e.beq k key then (k, c) ∷ m else (k, d) ∷ store key c m

-- e.count += n; e.lastSeen = now
abbrev pub hit : UriCounter → ℕ → ℕ → UriCounter
hit c n now = record { count = (c.count + n) % u64_mod; last_seen = now }

-- The zero value that a read of an absent key gives.
abbrev pub or_zero : Option UriCounter → UriCounter
or_zero none = record { count = 0; last_seen = 0 }
or_zero (some c) = c

abbrev pub idle : ℕ → UriCounter → Bool
idle now c = ltb uri_idle_ttl (now - c.last_seen)

pub sweep : {K : Type 0} → UriCounters K → ℕ → UriCounters K
sweep u now =
    if ltb (now - u.last_sweep) uri_sweep_interval
    then u
    else record u { m = keep (λ kc. not (idle now kc.1)) u.m; last_sweep = now }

module _ {K : Type 0} ⦃e : Eq K⦄ where
  -- u.m[key] with count and time of the hit written back
  pub bump : K → ℕ → ℕ → UriCounters K → UriCounters K
  bump key n now u = record u { m = store key (hit (or_zero (find key u.m)) n now) u.m }

  -- The part of `add` for a key that is not in the map.
  pub add_new : UriCounters K → K → K → ℕ → ℕ → UriCounters K
  add_new u key overflow n now =
      let swept : UriCounters K = if leb u.limit (length u.m) then sweep u now else u in
      bump (if leb swept.limit (length swept.m) then overflow else key) n now swept

  pub add : UriCounters K → K → K → ℕ → ℕ → UriCounters K
  add u key overflow n now = elim (find key u.m) [
    | some c ↦ record u { m = store key (hit c n now) u.m }
    | none ↦ add_new u key overflow n now
  ]
