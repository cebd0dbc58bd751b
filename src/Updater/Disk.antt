-- ===== src/Updater/Disk.antt =====
-- The files that updater.go reads and writes, and its loadState, saveState and replace.
-- Every call of the system is an operation that the environment lets succeed or fail.
use topsrv.Base.{
  ℕ, Bool, true, false, not, ◌||◌, ◌≡◌, ◌≢◌, ◌⊎◌, inr, arith, List, [], ◌∷◌, Option, none, some,
  Text, same, if◌then◌else◌, refl,
}

-- A time is a number of nanoseconds since the zero time.Time.
pub record UpdateState : Type 0 where
  pub last_update : ℕ
  pub previous_version : Text
  pub current_version : Text
  pub restart_count : ℕ
  pub graceful : Bool

pub zero_state : UpdateState
zero_state = record {
  last_update = 0;
  previous_version = [];
  current_version = [];
  restart_count = 0;
  graceful = false;
}

-- update-state.json. A text that is no JSON leaves what was decoded before the error.
pub data StateFile : Type 0 where
  missing : StateFile
  corrupt : UpdateState → StateFile
  saved : UpdateState → StateFile

-- An entry of the backup directory.
pub data Entry : Type 0 where
  file : Text → Entry
  directory : Entry

pub record Disk : Type 0 where
  pub bin : Option Text  -- the file at binPath
  pub staged : Option Text  -- the file at binPath + ".new"
  pub backups : List (Text × Entry)  -- backupDir
  pub state : StateFile

-- The system calls that can fail.
pub data Op : Type 0 where
  make_state_dir write_state : Op
  open_new create_staged copy_staged close_staged remove_staged rename_staged : Op
  make_backup_dir open_bin create_backup copy_backup close_backup read_backup_dir : Op
  make_temp create_tar copy_tar close_tar open_tar create_new copy_new close_new : Op
  remove_backup : Text → Op

pub record Env : Type 0 where
  pub ok : Op → Bool
  pub torn_state : StateFile  -- what a failed write leaves of the state
  pub torn : Text → Text  -- what a failed copy leaves of a file

-- (state, err == nil)
unfoldable pub load_state : Disk → UpdateState × Bool
unfolding zero_state
load_state d = elim d.state [
  | missing ↦ (zero_state, false)
  | corrupt s ↦ (s, false)
  | saved s ↦ (s, true)
]

-- Errors are dropped, as in the code.
unfoldable pub save_state : Env → UpdateState → Disk → Disk
save_state env s d =
    if env.ok make_state_dir
    then record d { state = if env.ok write_state then saved s else env.torn_state }
    else d

-- _ = os.Remove(tmpPath)
unfoldable pub drop_staged : Env → Disk → Disk
drop_staged env d = if env.ok remove_staged then record d { staged = none } else d

-- The argument is the file at newBinPath. The result says whether the error is nil.
unfoldable pub replace : Env → Option Text → Disk → Disk × Bool
unfolding drop_staged
replace env none d = (d, false)
replace env (some content) d =
    if not (env.ok open_new) || not (env.ok create_staged)
    then (d, false)
    else if not (env.ok copy_staged)
    then (drop_staged env (record d { staged = some (env.torn content) }), false)
    else if not (env.ok close_staged)
    then (drop_staged env (record d { staged = some content }), false)
    else if env.ok rename_staged
    then (record d { bin = some content; staged = none }, true)
    else (record d { staged = some content }, false)

unfoldable pub find_backup : Text → List (Text × Entry) → Option Entry
find_backup name [] = none
find_backup name ((n, e) ∷ l) = if same n name then some e else find_backup name l

abbrev pub content_of : Option Entry → Option Text
content_of (some (file t)) = some t
content_of (some directory) = none
content_of none = none

-- Either the new content is in place, or the error is reported and the binary is as it was.
pub replace_lem :
    (env : Env) (new : Option Text) (d : Disk)
    → (((replace env new d).1 ≡ true) × ((replace env new d).0.bin ≡ new) × (new ≢ none))
      ⊎ (((replace env new d).1 ≡ false) × ((replace env new d).0.bin ≡ d.bin))
unfolding replace
replace_lem env none d = inr (refl, refl)
replace_lem env (some content) d = ground arith

-- Nothing but the binary and the staged copy changes.
pub replace_frame :
    (env : Env) (new : Option Text) (d : Disk)
    → ((replace env new d).0.backups ≡ d.backups) × ((replace env new d).0.state ≡ d.state)
unfolding replace
replace_frame env none d = (refl, refl)
replace_frame env (some content) d = ground arith

pub save_state_frame :
    (env : Env) (s : UpdateState) (d : Disk)
    → ((save_state env s d).bin ≡ d.bin)
      × ((save_state env s d).backups ≡ d.backups)
      × ((save_state env s d).staged ≡ d.staged)
unfolding save_state
save_state_frame env s d = ground arith
