-- ===== src/Updater/Rollback/Loop.antt =====
-- A crash loop ends in a rollback, and a rollback ends the loop.
use topsrv.Base.{ℕ, ◌+◌, ◌-◌, ◌≤◌, ◌≡◌, true, false, Text, arith, refl}
use topsrv.Updater.Disk.{
  UpdateState, Disk, Env, load_state, save_state, replace, open_new, create_staged, copy_staged,
  close_staged, rename_staged, find_backup, content_of,
}
use topsrv.Updater.Backups.{backup_name}
use topsrv.Updater.Rollback.{
  update_crash_window, running, attempt_rollback, check_rollback, outside,
}
use topsrv.Updater.Rollback.Guard.{StateWritable}
use topsrv.Updater.Rollback.Life.{Life}

-- Nothing fails that a rollback needs.
abbrev pub Replaces : Env → Type 0
Replaces env =
    (env.ok open_new ≡ true)
    × (env.ok create_staged ≡ true)
    × (env.ok copy_staged ≡ true)
    × (env.ok close_staged ≡ true)
    × (env.ok rename_staged ≡ true)

-- The state `s` was written by an update, `n` crashes ago.
abbrev pub Loaded : Disk → UpdateState → Type 0
Loaded d s = load_state d ≡ (s, true)

abbrev bumped : UpdateState → UpdateState
bumped s = record s { restart_count = s.restart_count + 1 }

module _ (env : Env) (w : StateWritable env) where
  load_saved :
      (s : UpdateState) (d : Disk)
      → Loaded (save_state env s d) s
        × ((save_state env s d).backups ≡ d.backups)
        × ((save_state env s d).bin ≡ d.bin)
  unfolding save_state load_state
  load_saved s d = rw (w.0, w.1) (refl, refl, refl)

-- The state that a rollback writes.
abbrev closed : Env → Text → Disk → UpdateState
closed env version d =
    let d' = (replace env (content_of (find_backup (backup_name version) d.backups)) d).0 in
    record (load_state d').0 { last_update = 0; restart_count = 0; graceful = false }

attempt-Loaded :
    (env : Env) (version : Text) (d : Disk)
    → StateWritable env
    → (attempt_rollback env version d).1 ≡ true
    → Loaded (attempt_rollback env version d).0 (closed env version d)
unfolding attempt_rollback
attempt-Loaded env version d w h =
    let d' = (replace env (content_of (find_backup (backup_name version) d.backups)) d).0 in
    ground (arith, load_saved env w (closed env version d) d')

check_closed :
    (env : Env) (now : ℕ) (s : UpdateState) (d : Disk)
    → Loaded d s
    → update_crash_window ≤ now - s.last_update
    → s.restart_count ≡ 0
    → s.graceful ≡ false
    → check_rollback env now d ≡ (d, running)
unfolding check_rollback outside
check_closed env now s d e late zero calm = rw e (rw (zero, calm) (ground arith))

-- A rollback that worked closes the window: whenever the binary that it put back starts, more than
-- five minutes past the zero time, nothing is rolled back and nothing is written. The state file had
-- to be writable at the rollback.
pub rollback_once :
    (env env' : Env) (version : Text) (now : ℕ) (d : Disk)
    → StateWritable env
    → (attempt_rollback env version d).1 ≡ true
    → update_crash_window ≤ now
    → check_rollback env' now (attempt_rollback env version d).0
      ≡ ((attempt_rollback env version d).0, running)
rollback_once env env' version now d w h late =
    check_closed env' now (closed env version d) (attempt_rollback env version d).0
      (attempt-Loaded env version d w h) (omega arith) refl refl
