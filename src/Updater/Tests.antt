-- ===== src/Updater/Tests.antt =====
-- Runs of the updater, and the theorems about it at concrete disks.
use topsrv.Base.{
  ℕ, ◌+◌, ◌*◌, ◌^◌, ◌≡◌, true, false, List, [], ◌∷◌, some, none, Text, codes, same, split, atoi,
  refl, sub_int64,
}
use topsrv.Updater.Disk.{
  UpdateState, Disk, Entry, file, directory, missing, saved, Env, load_state, save_state, replace,
  find_backup,
}
use topsrv.Updater.Version.{extract_version, compare_versioned_names, compare_parts, compare_text}
use topsrv.Updater.Version.Order.{IsPlain}
use topsrv.Updater.Backups.{backup, backup_name, trim_backups, file_names, succeeded}
use topsrv.Updater.Backups.Downgrade.{downgrade_drops_backup}
use topsrv.Updater.Rollback.{update_exit_code, check_rollback, attempt_rollback, rollback}
use topsrv.Updater.Rollback.Guard.{RolledBack, check_rollback_exit}

-- Nothing fails.
abbrev pub calm : Env
calm = record { ok = λ op. true; torn_state = missing; torn = λ t. [] }

abbrev pub hour : ℕ
hour = 3600 * 10 ^ 9

abbrev second : ℕ
second = 10 ^ 9

abbrev v1 : Text
v1 = codes "topsrv-0.0.9"

abbrev v2 : Text
v2 = codes "topsrv-v0.0.10"

abbrev v3 : Text
v3 = codes "topsrv-0.1"

IsPlain-v1 : IsPlain v1
unfolding extract_version split atoi
IsPlain-v1 = (refl, (refl, (refl, (refl, tt))))

IsPlain-v2 : IsPlain v2
unfolding extract_version split atoi
IsPlain-v2 = (refl, (refl, (refl, (refl, tt))))

IsPlain-v3 : IsPlain v3
unfolding extract_version split atoi
IsPlain-v3 = (refl, (refl, (refl, tt)))

-- Three backups, not in order.
abbrev shelf : List (Text × Entry)
shelf = (v2, file (codes "b")) ∷ (v1, file (codes "a")) ∷ (v3, file (codes "c")) ∷ []

abbrev folders : List (Text × Entry)
folders = (codes "a", directory) ∷ (codes "b", directory) ∷ (codes "c", directory) ∷ []

folders_panic : trim_backups calm folders ≡ none
unfolding trim_backups file_names
folders_panic = refl

abbrev fresh : UpdateState
fresh = record {
  last_update = hour;
  previous_version = codes "0.0.9";
  current_version = codes "0.1";
  restart_count = 0;
  graceful = false;
}

abbrev pub disk : Disk
disk = record {
  bin = some (codes "new");
  staged = none;
  backups = (v1, file (codes "old")) ∷ [];
  state = saved fresh;
}

-- 0.0.9 runs beside backups of 0.0.10 and 0.1.
abbrev downgraded : Disk
downgraded = record disk { backups = (v2, file (codes "b")) ∷ (v3, file (codes "c")) ∷ [] }

downgrade_drops_backup_example :
    ((backup calm (codes "0.0.9") downgraded).1 ≡ succeeded)
    × (find_backup (backup_name (codes "0.0.9")) (backup calm (codes "0.0.9") downgraded).0.backups
        ≡ none)
downgrade_drops_backup_example =
    downgrade_drops_backup calm (codes "0.0.9") v2 v3 (codes "b") (codes "c") (codes "new")
      downgraded (refl, refl, refl, refl, refl, refl) (λ name. refl) IsPlain-v2 IsPlain-v3
      IsPlain-v1
      (unfold compare_versioned_names extract_version compare_parts compare_text atoi split
          sub_int64 in
        refl)
      (unfold compare_versioned_names extract_version compare_parts compare_text atoi split
          sub_int64 in
        refl)
      refl refl

-- The third start after a crash.
abbrev failing : Disk
failing = record disk { state = saved (record fresh { restart_count = 2 }) }

check_rollback_exit_example :
    (update_exit_code ≡ update_exit_code) × RolledBack calm (hour + second) failing
check_rollback_exit_example = check_rollback_exit calm (hour + second) failing update_exit_code (
    unfold check_rollback rollback attempt_rollback load_state save_state replace find_backup
      same in
    refl)
