-- ===== src/Updater/Backups.antt =====
-- backup and trimBackups of internal/topsrv/updater.go.
pub mod Downgrade
pub mod Trim
use topsrv.Base.{
  ◌||◌, ℕ, suc, ◌+◌, ◌-◌, ◌≤◌, Bool, true, false, not, List, [], ◌∷◌, ◌++◌, Option, none, some,
  Text, same, length, take, leb, ltb, any, sort, if◌then◌else◌,
}
use topsrv.Updater.Disk.{
  Disk, Entry, file, directory, Env, find_backup, make_backup_dir, open_bin, create_backup,
  copy_backup, close_backup, read_backup_dir, remove_backup,
}
use topsrv.Updater.Version.{backup_prefix, older}

abbrev pub update_max_backups : ℕ
update_max_backups = 2

-- The names of the entries that are no directories.
unfoldable pub file_names : List (Text × Entry) → List Text
file_names [] = []
file_names ((n, file t) ∷ l) = n ∷ file_names l
file_names ((n, directory) ∷ l) = file_names l

abbrev pub elem : Text → List Text → Bool
elem a = any (same a)

-- os.Remove of each name of the list, where errors are dropped.
unfoldable pub remove_all : Env → List Text → List (Text × Entry) → List (Text × Entry)
remove_all env doomed [] = []
remove_all env doomed ((n, e) ∷ l) =
    if elem n doomed
    then (if env.ok (remove_backup n)
        then remove_all env doomed l
        else (n, e) ∷ remove_all env doomed l)
    else (n, e) ∷ remove_all env doomed l

-- The names that trimBackups removes, the oldest first.
unfoldable pub doomed_names : List (Text × Entry) → List Text
doomed_names l =
    let names = sort older (file_names l) in take (length names - update_max_backups) names

-- `none` is the panic of names[:len(names)-updateMaxBackups] at a negative bound.
unfoldable pub trim_backups : Env → List (Text × Entry) → Option (List (Text × Entry))
trim_backups env l =
    if not (env.ok read_backup_dir)
    then some l
    else if leb (length l) update_max_backups
    then some l
    else if ltb (length (file_names l)) update_max_backups
    then none
    else some (remove_all env (doomed_names l) l)

-- os.OpenFile with O_CREATE and O_TRUNC, and what is written then.
unfoldable pub store_backup : Text → Text → List (Text × Entry) → List (Text × Entry)
store_backup name content [] = (name, file content) ∷ []
store_backup name content ((n, e) ∷ l) =
    if same n name then (n, file content) ∷ l else (n, e) ∷ store_backup name content l

-- How a method of the updater ends.
pub data Outcome : Type 0 where
  failed : Outcome
  succeeded : Outcome
  panicked : Outcome

after_copy : Env → Disk → Disk × Outcome
after_copy env d = elim (trim_backups env d.backups) [
  | none ↦ (d, panicked)
  | some l ↦ (record d { backups = l }, succeeded)
]

abbrev pub backup_name : Text → Text
backup_name version = backup_prefix ++ version

-- The copy of the running binary to the backup directory. A directory of that name cannot be opened.
unfoldable pub write_backup : Env → Text → Text → Disk → Disk × Bool
write_backup env name content d = elim (find_backup name d.backups) [
  | some directory ↦ (d, false)
  | _ ↦
      if not (env.ok create_backup)
      then (d, false)
      else if not (env.ok copy_backup)
      then (record d { backups = store_backup name (env.torn content) d.backups }, false)
      else if env.ok close_backup
      then (record d { backups = store_backup name content d.backups }, true)
      else (record d { backups = store_backup name content d.backups }, false)
]

unfoldable pub backup : Env → Text → Disk → Disk × Outcome
unfolding after_copy
backup env version d = elim d.bin [
  | none ↦ (d, failed)
  | some content ↦
      if not (env.ok make_backup_dir) || not (env.ok open_bin)
      then (d, failed)
      else (let (d', done) = write_backup env (backup_name version) content d in
          if done then after_copy env d' else (d', failed))
]
