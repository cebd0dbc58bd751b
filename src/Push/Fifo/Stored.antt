-- ===== src/Push/Fifo/Stored.antt =====
-- Directories of metrics that were spooled before a time.
use topsrv.Base.{
  inr, refl, All-append, inl, ◌++◌, zero, Bool-cases, ◌≡◌, drop, All, All-map, arith, ◌∷◌, suc,
  Text, Bool, codes, ◌≤◌, [], List, ◌<◌, ℕ,
}
use topsrv.Push.State.{Env, File}
use topsrv.Push.{file_name}
use topsrv.Push.Stamps.{IsStamp, file_name-lt}
use topsrv.Push.Listing.{Increasing, Increasing-append, Before, has_suffix-append}
use topsrv.Push.Fifo.{resend, All-resend}
use topsrv.Push.Fifo.Store.{Gz, fresh_file}

-- A file that was spooled before a time.
abbrev pub StampedBefore : ℕ → File → Type 0
StampedBefore t f = (ms : ℕ) × IsStamp ms × (ms < t) × (f.name ≡ file_name [] ms (codes "gz"))

pub record Stored (t : ℕ) (fs : List File) : Type 0 where
  pub increasing : Increasing fs
  pub stamped : All (StampedBefore t) fs

pub StampedBefore-Gz : (t : ℕ) (f : File) → StampedBefore t f → Gz f
StampedBefore-Gz t f (ms, s, lt, e) = rw e (has_suffix-append _ (codes ".gz"))

pub StampedBefore-Before :
    (t : ℕ) (f : File) → IsStamp t → StampedBefore t f → Before (file_name [] t (codes "gz")) f
StampedBefore-Before t f ht (ms, s, lt, e) = rw e (file_name-lt ms t (codes "gz") s ht lt)

later : (t u : ℕ) → t ≤ u → (f : File) → StampedBefore t f → StampedBefore u f
later t u le f (ms, s, lt, e) = (ms, s, omega arith, e)

pub Stored-later : (t u : ℕ) (fs : List File) → t ≤ u → Stored t fs → Stored u fs
Stored-later t u fs le h = record {
  increasing = h.increasing;
  stamped = All-map (StampedBefore t) (StampedBefore u) (later t u le) fs h.stamped;
}

Increasing-resend :
    (up : ℕ → Bool) (fs : List File) (n : ℕ) → Increasing fs → Increasing (resend up fs n).0
unfolding resend
Increasing-resend up [] n h = tt
Increasing-resend up (f ∷ fs) n (h, k) = elim (Bool-cases (up n)) [
  | inl e ↦ rw e (Increasing-resend up fs (suc n) k)
  | inr e ↦ rw e (h, k)
]

pub Stored-resend :
    (t : ℕ) (up : ℕ → Bool) (fs : List File) (n : ℕ) → Stored t fs → Stored t (resend up fs n).0
Stored-resend t up fs n h = record {
  increasing = Increasing-resend up fs n h.increasing;
  stamped = All-resend (StampedBefore t) up fs n h.stamped;
}

pub Stored-drop : (t k : ℕ) (fs : List File) → Stored t fs → Stored t (drop k fs)
Stored-drop t zero fs h = h
Stored-drop t (suc k) [] h = h
Stored-drop t (suc k) (f ∷ fs) h =
    Stored-drop t k fs (record { increasing = h.increasing.1; stamped = h.stamped.1 })

pub Stored-append :
    (env : Env) (body : Text) (fs : List File)
    → IsStamp env.now
    → Stored env.now fs
    → Stored (suc env.now) (fs ++ (fresh_file env body ∷ []))
Stored-append env body fs s h = record {
  increasing =
      Increasing-append (fresh_file env body) fs
        (All-map (StampedBefore env.now) (Before (file_name [] env.now (codes "gz")))
          (λ f. StampedBefore-Before env.now f s) fs h.stamped)
        h.increasing;
  stamped =
      All-append (StampedBefore (suc env.now)) fs (fresh_file env body ∷ [])
        (Stored-later env.now (suc env.now) fs (omega arith) h).stamped
        ((env.now, s, omega arith, refl), tt);
}
