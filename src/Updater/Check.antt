-- ===== src/Updater/Check.antt =====
-- The update itself: check, fetchUpdate, download, verifyChecksum, extractBinary and verifyBinary of
-- internal/topsrv/updater.go. What the servers answer is a value; SHA-256 in hexadecimal, the reader
-- of tar.gz archives and the run of the new binary are parameters.
pub mod Progress
pub mod Safety
mod Tests
use topsrv.Base.{
  ℕ, ◌+◌, Bool, true, false, not, ◌&&◌, ◌||◌, List, [], ◌∷◌, ◌++◌, Option, none, some, Text, same,
  codes, is_empty, trim_prefix, eqb, if◌then◌else◌, split,
}
use topsrv.Updater.Disk.{
  UpdateState, Disk, Env, save_state, replace, Op, make_temp, create_tar, copy_tar, close_tar,
  open_tar, create_new, copy_new, close_new,
}
use topsrv.Updater.Backups.{backup, Outcome, failed, succeeded, panicked}
use topsrv.Updater.Rollback.{Process, running, exited, update_exit_code}

pub record UpdateResponse : Type 0 where
  pub update : Bool
  pub version : Text
  pub url : Text
  pub checksum : Text

-- What http.Client.Do gives: an error, or a status and a body that was read.
pub data Reply (A : Type 0) : Type 0 where
  no_answer : Reply A
  answered : ℕ → A → Reply A

abbrev pub status_ok : ℕ
status_ok = 200

-- The body is the decoded response, or none where it is no JSON.
unfoldable pub fetch_update : Reply (Option UpdateResponse) → Option UpdateResponse
fetch_update no_answer = none
fetch_update (answered code body) = if eqb code status_ok then body else none

-- The file at dest, or none for an error.
unfoldable pub download : Env → Reply Text → Option Text
download env no_answer = none
download env (answered code body) =
    if not (eqb code status_ok)
    then none
    else if env.ok create_tar && env.ok copy_tar && env.ok close_tar
    then some body
    else none

abbrev pub sha256_prefix : Text
sha256_prefix = codes "sha256:"

-- One step of the tar reader.
pub data Item : Type 0 where
  entry : Bool → Text → Text → Item  -- whether the type is TypeReg, the name, the content
  broken : Item

-- filepath.Base of a slash-separated name.
last_part : Text → List Text → Text
last_part seen [] = seen
last_part seen ([] ∷ ps) = last_part seen ps
last_part seen ((c ∷ p) ∷ ps) = last_part (c ∷ p) ps

unfoldable pub base : Text → Text
unfolding last_part
base [] = codes "."
base (c ∷ s) =
    let part = last_part [] (split b'/' (c ∷ s)) in if is_empty part then codes "/" else part

module _ (sha256_hex : Text → Text) where
  -- The path is that of `tar`, whose content is given. True is the nil error.
  unfoldable pub verify_checksum : Env → Text → Text → Bool
  unfolding trim_prefix
  verify_checksum env tar expected =
      let expected_hex = trim_prefix sha256_prefix expected in
      if is_empty expected_hex || same expected_hex expected
      then false
      else if env.ok open_tar
      then same (sha256_hex tar) expected_hex
      else false

-- The items up to the end of the archive. The result is the file at destPath.
unfoldable pub extract_binary : Env → List Item → Option Text
extract_binary env [] = none
extract_binary env (broken ∷ items) = none
extract_binary env (entry regular name content ∷ items) =
    let rest = extract_binary env items in
    if not regular || not (same (base name) (codes "topsrv"))
    then rest
    else if env.ok create_new && env.ok copy_new && env.ok close_new
    then some content
    else none

module _ (sha256_hex : Text → Text) (untar : Text → List Item) (runs : Text → Bool) where
  -- From the backup on. `new` is the file at newBinPath.
  install : Env → ℕ → Text → UpdateResponse → Text → Disk → Disk × Process
  install env now version resp new d =
      let (d1, made) = backup env version d in
      elim made [
        | failed ↦ (d1, running)
        | panicked ↦ (d1, exited 2)
        | succeeded ↦
            let d2 =
              save_state env
                (record {
                  last_update = now;
                  previous_version = version;
                  current_version = resp.version;
                  restart_count = 0;
                  graceful = false;
                })
                d1 in
            let (d3, done) = replace env (some new) d2 in
            if done then (d3, exited update_exit_code) else (d3, running)
      ]

  -- The archive that was downloaded, up to the run of the new binary.
  try_archive : Env → ℕ → Text → UpdateResponse → Text → Disk → Disk × Process
  try_archive env now version resp tar d =
      if not (verify_checksum sha256_hex env tar resp.checksum)
      then (d, running)
      else elim (extract_binary env (untar tar)) [
        | none ↦ (d, running)
        | some new ↦ if runs new then install env now version resp new d else (d, running)
      ]

  -- From the answer of the update server on.
  try_offer : Env → ℕ → Text → UpdateResponse → Reply Text → Disk → Disk × Process
  try_offer env now version resp archive d =
      if not resp.update || not (env.ok make_temp)
      then (d, running)
      else elim (download env archive) [
        | none ↦ (d, running)
        | some tar ↦ try_archive env now version resp tar d
      ]

  -- check: `answer` is the reply of the update server, `archive` that of the download.
  pub check : Env → ℕ → Text → Reply (Option UpdateResponse) → Reply Text → Disk → Disk × Process
  check env now version answer archive d = elim (fetch_update answer) [
    | none ↦ (d, running)
    | some resp ↦ try_offer env now version resp archive d
  ]
