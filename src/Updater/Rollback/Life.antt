-- ===== src/Updater/Rollback/Life.antt =====
-- The life of an updated agent as a sequence of starts and stops.
use topsrv.Base.{ℕ, suc, ◌+◌, ◌≤◌, ◌≡◌, true, List, [], ◌∷◌}
use topsrv.Updater.Disk.{Disk, Env, load_state}
use topsrv.Updater.Rollback.{Process, running, exited, check_rollback, mark_graceful, mark_stable}

pub data Life : Type 0 where
  crash_start : ℕ → Life  -- a start at that time, after an exit that marked nothing
  clean_restart : ℕ → Life  -- a cancelled context, and a start at that time
  stable : Life  -- a minute without an exit

unfoldable pub live_once : Env → Life → Disk → Disk × Process
live_once env (crash_start now) d = check_rollback env now d
live_once env (clean_restart now) d = check_rollback env now (mark_graceful env d)
live_once env stable d = (mark_stable env d, running)

-- What an exit of the process leaves is final: the supervisor starts another life.
unfoldable pub live : Env → List Life → Disk → Disk × Process
live env [] d = (d, running)
live env (l ∷ ls) d =
    let (d', p) = live_once env l d in
    elim p [ running ↦ live env ls d' | exited code ↦ (d', exited code) ]

abbrev pub crashes : List Life → ℕ
crashes [] = 0
crashes (crash_start now ∷ ls) = suc (crashes ls)
crashes (clean_restart now ∷ ls) = crashes ls
crashes (stable ∷ ls) = crashes ls

abbrev cost : Life → ℕ
cost (crash_start now) = 1
cost (clean_restart now) = 0
cost stable = 0

-- The state file holds a state, and its counter.
abbrev pub IsReadable : Disk → Type 0
IsReadable d = (load_state d).1 ≡ true

abbrev pub count : Disk → ℕ
count d = (load_state d).0.restart_count

-- One event adds at most its cost to the counter, and touches neither binary nor process.
abbrev Quiet : Disk → ℕ → Disk × Process → Type 0
Quiet d n after =
    IsReadable after.0
    × (count after.0 ≤ count d + n)
    × (after.0.bin ≡ d.bin)
    × (after.0.backups ≡ d.backups)
    × (after.1 ≡ running)
