-- ===== src/Updater/Rollback.antt =====
-- The crash-loop guard of internal/topsrv/updater.go: checkRollback, rollback, attemptRollback,
-- markStableAfter, markGracefulIfCancelled and markGraceful.
-- RestartCount starts at 0 and grows by one, so the model takes it for a number that does not wrap.
pub mod Guard
pub mod Life
pub mod Loop
use topsrv.Base.{
  ℕ, suc, ◌+◌, ◌-◌, ◌*◌, ◌^◌, Bool, true, false, not, ◌||◌, Option, none, some, Text, leb, eqb,
  if◌then◌else◌, ◌++◌,
}
use topsrv.Updater.Disk.{
  UpdateState, Disk, Env, load_state, save_state, replace, find_backup, content_of,
}
use topsrv.Updater.Backups.{backup_name}

-- updateCrashWindow: five minutes.
abbrev pub update_crash_window : ℕ
update_crash_window = 300 * 10 ^ 9

abbrev pub update_max_restarts : ℕ
update_max_restarts = 3

abbrev pub update_exit_code : ℕ
update_exit_code = 42

-- Whether the process goes on, or has called os.Exit.
pub data Process : Type 0 where
  running : Process
  exited : ℕ → Process

-- The error of replace is reported, with the window still open.
unfoldable pub attempt_rollback : Env → Text → Disk → Disk × Bool
attempt_rollback env version d =
    let (d', done) = replace env (content_of (find_backup (backup_name version) d.backups)) d in
    if done
    then (
      save_state env
          (record (load_state d').0 { last_update = 0; restart_count = 0; graceful = false }) d',
      true,
    )
    else (d', false)

unfoldable pub rollback : Env → Text → Disk → Disk × Process
rollback env version d =
    let (d', done) = attempt_rollback env version d in
    if done then (d', exited update_exit_code) else (d', running)

-- Outside the window: tidy the counter.
outside : Env → UpdateState → Disk → Disk
outside env s d =
    if not (eqb s.restart_count 0) || s.graceful
    then save_state env (record s { restart_count = 0; graceful = false }) d
    else d

-- A start after a crash, inside the window.
crashed : Env → UpdateState → Disk → Disk × Process
crashed env s d =
    let s' = record s { restart_count = s.restart_count + 1 } in
    let d' = save_state env s' d in
    if leb update_max_restarts (s.restart_count + 1)
    then rollback env s.previous_version d'
    else (d', running)

unfoldable pub check_rollback : Env → ℕ → Disk → Disk × Process
unfolding outside crashed
check_rollback env now d =
    let (s, read) = load_state d in
    if not read
    then (d, running)
    else if leb update_crash_window (now - s.last_update)
    then (outside env s d, running)
    else if s.graceful
    then (save_state env (record s { graceful = false }) d, running)
    else crashed env s d

-- markStableAfter, once the binary has run for updateStableThreshold.
unfoldable pub mark_stable : Env → Disk → Disk
mark_stable env d =
    let (s, read) = load_state d in
    if not read || eqb s.restart_count 0
    then d
    else save_state env (record s { restart_count = 0 }) d

unfoldable pub mark_graceful : Env → Disk → Disk
mark_graceful env d =
    let (s, read) = load_state d in
    if not read || s.graceful then d else save_state env (record s { graceful = true }) d

-- The argument says whether the context was cancelled.
unfoldable pub mark_graceful_if_cancelled : Env → Bool → Disk → Disk
unfolding mark_graceful
mark_graceful_if_cancelled env cancelled d = if cancelled then mark_graceful env d else d
