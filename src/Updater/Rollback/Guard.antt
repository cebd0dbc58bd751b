-- ===== src/Updater/Rollback/Guard.antt =====
-- When the crash-loop guard rolls back, and when it must not.
use topsrv.Base.{
  ap, ◌∙◌, ℕ, ◌+◌, ◌-◌, ◌≤◌, ◌<◌, ◌≡◌, ◌≢◌, true, false, Option, none, Text, arith, refl,
}
use topsrv.Updater.Disk.{
  UpdateState, Disk, StateFile, saved, missing, corrupt, Env, load_state, save_state, replace,
  replace_lem, save_state_frame, find_backup, content_of, make_state_dir, write_state,
}
use topsrv.Updater.Backups.{backup_name}
use topsrv.Updater.Rollback.{
  update_crash_window, update_max_restarts, update_exit_code, exited, attempt_rollback, rollback,
  check_rollback, crashed,
}

abbrev pub StateWritable : Env → Type 0
StateWritable env = (env.ok make_state_dir ≡ true) × (env.ok write_state ≡ true)

pub save_state_saved :
    (env : Env) (s : UpdateState) (d : Disk)
    → StateWritable env
    → (save_state env s d).state ≡ saved s
unfolding save_state
save_state_saved env s d (a, b) = rw (a, b)

-- The file that a rollback to the state's previous version puts in place.
abbrev pub rollback_target : UpdateState → Disk → Option Text
rollback_target s d = content_of (find_backup (backup_name s.previous_version) d.backups)

attempt_bin :
    (env : Env) (version : Text) (d : Disk)
    → (attempt_rollback env version d).1 ≡ true
    → ((attempt_rollback env version d).0.bin
        ≡ content_of (find_backup (backup_name version) d.backups))
      × (content_of (find_backup (backup_name version) d.backups) ≢ none)
unfolding attempt_rollback
attempt_bin env version d h =
    let target = content_of (find_backup (backup_name version) d.backups) in
    let d' = (replace env target d).0 in
    ground (
      arith,
      replace_lem env target d,
      save_state_frame env
          (record (load_state d').0 { last_update = 0; restart_count = 0; graceful = false }) d',
    )

-- What a start that ends in a rollback shows of the state before it.
pub record RolledBack (env : Env) (now : ℕ) (d : Disk) : Type 0 where
  pub before : UpdateState
  pub loaded : d.state ≡ saved before
  pub crash : before.graceful ≡ false
  pub recent : now - before.last_update < update_crash_window
  pub third : update_max_restarts ≤ before.restart_count + 1
  pub restored : (check_rollback env now d).0.bin ≡ rollback_target before d
  pub present : rollback_target before d ≢ none

rollback_running :
    (env : Env) (version : Text) (d : Disk) (code : ℕ)
    → (rollback env version d).1 ≡ exited code
    → (code ≡ update_exit_code)
      × ((attempt_rollback env version d).1 ≡ true)
      × ((rollback env version d).0 ≡ (attempt_rollback env version d).0)
unfolding rollback
rollback_running env version d code h = ground arith

crashed_exit :
    (env : Env) (s : UpdateState) (d : Disk) (code : ℕ)
    → (crashed env s d).1 ≡ exited code
    → (code ≡ update_exit_code)
      × (update_max_restarts ≤ s.restart_count + 1)
      × ((crashed env s d).0.bin ≡ rollback_target s d)
      × (rollback_target s d ≢ none)
unfolding crashed
crashed_exit env s d code h =
    let d' = save_state env (record s { restart_count = s.restart_count + 1 }) d in
    ground (
      arith,
      rollback_running env s.previous_version d' code,
      attempt_bin env s.previous_version d',
      save_state_frame env (record s { restart_count = s.restart_count + 1 }) d,
    )

check_saved :
    (env : Env) (now : ℕ) (d : Disk) (s : UpdateState) (code : ℕ)
    → d.state ≡ saved s
    → (check_rollback env now d).1 ≡ exited code
    → (s.graceful ≡ false)
      × (now - s.last_update < update_crash_window)
      × ((check_rollback env now d).0 ≡ (crashed env s d).0)
      × ((crashed env s d).1 ≡ exited code)
unfolding check_rollback load_state
check_saved env now d s code e h = ground arith

rolled_back :
    (env : Env) (now : ℕ) (d : Disk) (f : StateFile) (code : ℕ)
    → d.state ≡ f
    → (check_rollback env now d).1 ≡ exited code
    → (code ≡ update_exit_code) × RolledBack env now d
rolled_back env now d missing code e h = unfold check_rollback load_state in ground arith
rolled_back env now d (corrupt s) code e h = unfold check_rollback load_state in ground arith
rolled_back env now d (saved s) code e h =
    let (crash, recent, same_disk, gone) = check_saved env now d s code e h in
    let (c, third, restored, present) = crashed_exit env s d code gone in
    (
      c,
      record {
        before = s;
        loaded = e;
        crash = crash;
        recent = recent;
        third = third;
        restored = ap (λ x. x.bin) same_disk ∙ restored;
        present = present;
      },
    )

-- A start exits only to roll back, with the code 42, and only if the state file could be read, the
-- last shutdown was no graceful one, the last update is less than five minutes old, and this is at
-- least the third counted start; the binary is then the backup of the previous version.
pub check_rollback_exit :
    (env : Env) (now : ℕ) (d : Disk) (code : ℕ)
    → (check_rollback env now d).1 ≡ exited code
    → (code ≡ update_exit_code) × RolledBack env now d
check_rollback_exit env now d code h = rolled_back env now d d.state code refl h
