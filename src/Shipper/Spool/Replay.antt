-- ===== src/Shipper/Spool/Replay.antt =====
-- What replayOne and retrySpool do with the files of the spool.
use topsrv.Base.{◌∷◌, length, ◌≤◌, ◌∷◌, ℕ, ◌+◌, ◌≡◌, ◌⊎◌, true, false, List, keep}
use topsrv.Shipper.State.{Pusher, SpoolFile}
use topsrv.Shipper.Spool.{max_transient_per_run, other_than, ReplayResult}

-- How a file leaves the spool, or stays.
abbrev pub Handled : {E : Type 0} → SpoolFile → Pusher E → Pusher E × ReplayResult → Type 0
Handled f p (q, r) =
    (q.ids ≡ p.ids)
    × (((r.transient ≡ true) × (r.sent ≡ false) × (q.files ≡ p.files) × (q.sends ≡ p.sends + 1))
        ⊎ ((r.transient ≡ false)
            × (q.files ≡ keep (other_than f.name) p.files)
            × ((q.sends ≡ p.sends) ⊎ (q.sends ≡ p.sends + 1))))

-- How far a run through the spool got: n files were handled, the last of them or the one at which
-- the third passing failure was counted.
pub record Retried {E : Type 0} (fs : List SpoolFile) (fails : ℕ) (p q : Pusher E) (fails' : ℕ)
    : Type 0 where
  pub count : ℕ
  pub in_range : count ≤ length fs
  pub capped : fails' ≤ max_transient_per_run
  pub stopped : (count ≡ length fs) ⊎ (fails' ≡ max_transient_per_run)
  pub ids : q.ids ≡ p.ids
  pub requests : q.sends ≤ p.sends + count
  pub failures : fails' ≤ fails + count
