-- ===== src/Updater/Check/Safety.antt =====
-- What has to hold before an update replaces the running binary.
use topsrv.Base.{
  not, ◌||◌, ℕ, ◌≡◌, ◌⊎◌, inl, inr, ◌++◌, Bool, true, false, List, Option, some, Text, same_eq,
  trim_prefix, trim_prefix-append, arith, refl, Bool-cases, Option-cases, ap, ◌∙◌,
}
use topsrv.Updater.Disk.{
  UpdateState, Disk, Env, make_temp, save_state, save_state_frame, replace_lem,
}
use topsrv.Updater.Backups.{backup, write_backup, succeeded}
use topsrv.Updater.Rollback.{exited, update_exit_code}
use topsrv.Updater.Check.{
  UpdateResponse, Reply, no_answer, answered, status_ok, fetch_update, download, sha256_prefix,
  Item, verify_checksum, extract_binary, install, try_archive, try_offer, check,
}

backup-bin : (env : Env) (version : Text) (d : Disk) → (backup env version d).0.bin ≡ d.bin
unfolding backup write_backup
backup-bin env version d = ground arith

fetch_update-some :
    (answer : Reply (Option UpdateResponse)) (resp : UpdateResponse)
    → fetch_update answer ≡ some resp
    → answer ≡ answered status_ok (some resp)
unfolding fetch_update
fetch_update-some no_answer resp h = cc
fetch_update-some (answered code body) resp h = ground arith

download-some :
    (env : Env) (archive : Reply Text) (tar : Text)
    → download env archive ≡ some tar
    → archive ≡ answered status_ok tar
unfolding download
download-some env no_answer tar h = cc
download-some env (answered code body) tar h = ground arith

module _ (sha256_hex : Text → Text) where
  verified :
      (env : Env) (tar expected : Text)
      → verify_checksum sha256_hex env tar expected ≡ true
      → expected ≡ sha256_prefix ++ sha256_hex tar
  unfolding verify_checksum
  verified env tar expected h = ground (
    arith,
    trim_prefix-append sha256_prefix expected,
    same_eq (sha256_hex tar) (trim_prefix sha256_prefix expected),
  )

module _ (sha256_hex : Text → Text) (untar : Text → List Item) (runs : Text → Bool) where
  -- What an update that replaced the binary shows.
  pub record Installed (env : Env) (now : ℕ) (version : Text)
      (answer : Reply (Option UpdateResponse)) (archive : Reply Text) (d : Disk) : Type 0 where
    pub resp : UpdateResponse
    pub tar : Text
    pub new : Text
    pub offered : answer ≡ answered status_ok (some resp)
    pub wanted : resp.update ≡ true
    pub fetched : archive ≡ answered status_ok tar
    pub intact : resp.checksum ≡ sha256_prefix ++ sha256_hex tar
    pub extracted : extract_binary env (untar tar) ≡ some new
    pub works : runs new ≡ true
    pub replaced : (check sha256_hex untar runs env now version answer archive d).0.bin ≡ some new
    pub left :
        (check sha256_hex untar runs env now version answer archive d).1 ≡ exited update_exit_code
    pub backed_up : (backup env version d).1 ≡ succeeded

  install_lem :
      (env : Env) (now : ℕ) (version : Text) (resp : UpdateResponse) (new : Text) (d : Disk)
      → let after = install sha256_hex untar runs env now version resp new d in
        (after.0.bin ≡ d.bin)
        ⊎ ((after.0.bin ≡ some new)
            × (after.1 ≡ exited update_exit_code)
            × ((backup env version d).1 ≡ succeeded))
  unfolding install
  install_lem env now version resp new d =
      let s : UpdateState = record {
        last_update = now;
        previous_version = version;
        current_version = resp.version;
        restart_count = 0;
        graceful = false;
      } in
      let d1 = (backup env version d).0 in
      ground (
        arith,
        backup-bin env version d,
        save_state_frame env s d1,
        replace_lem env (some new) (save_state env s d1),
      )

  archive_lem :
      (env : Env) (now : ℕ) (version : Text) (resp : UpdateResponse) (tar : Text) (d : Disk)
      → let after = try_archive sha256_hex untar runs env now version resp tar d in
        (after.0.bin ≡ d.bin)
        ⊎ ((new : Text) × (resp.checksum ≡ sha256_prefix ++ sha256_hex tar)
            × (extract_binary env (untar tar) ≡ some new)
            × (runs new ≡ true)
            × (after.0.bin ≡ some new)
            × (after.1 ≡ exited update_exit_code)
            × ((backup env version d).1 ≡ succeeded))
  unfolding try_archive
  archive_lem env now version resp tar d =
      elim (Bool-cases (verify_checksum sha256_hex env tar resp.checksum)) [
        | inr bad ↦ inl (rw bad refl)
        | inl good ↦ rw good (elim (Option-cases (extract_binary env (untar tar))) [
          | inl e ↦ inl (rw e refl)
          | inr (new, e) ↦ rw e (elim (Bool-cases (runs new)) [
            | inr r ↦ inl (rw r refl)
            | inl r ↦ rw r (elim (install_lem env now version resp new d) [
              | inl same_bin ↦ inl same_bin
              | inr (bin, out, made) ↦
                  inr (new, verified sha256_hex env tar resp.checksum good, refl, r, bin, out, made)
            ])
          ])
        ])
      ]

  offer_lem :
      (env : Env) (now : ℕ) (version : Text) (resp : UpdateResponse) (archive : Reply Text)
      (d : Disk)
      → let after = try_offer sha256_hex untar runs env now version resp archive d in
        (after.0.bin ≡ d.bin)
        ⊎ ((tar : Text) × (resp.update ≡ true)
            × (archive ≡ answered status_ok tar)
            × (after ≡ try_archive sha256_hex untar runs env now version resp tar d))
  offer_lem env now version resp archive d = elim (Option-cases (download env archive)) [
    | inl f ↦ inl (unfold try_offer in ground arith)
    | inr (tar, f) ↦ elim (Bool-cases (not resp.update || not (env.ok make_temp))) [
      | inl stop ↦ inl (unfold try_offer in rw stop refl)
      | inr go ↦
          inr (tar, ground arith, download-some env archive tar f, unfold try_offer in ground arith)
    ]
  ]

  reached :
      (env : Env) (now : ℕ) (version : Text) (answer : Reply (Option UpdateResponse))
      (archive : Reply Text) (d : Disk)
      → let after = check sha256_hex untar runs env now version answer archive d in
        (after.0.bin ≡ d.bin)
        ⊎ ((resp : UpdateResponse) × (answer ≡ answered status_ok (some resp))
            × (after ≡ try_offer sha256_hex untar runs env now version resp archive d))
  unfolding check
  reached env now version answer archive d = elim (Option-cases (fetch_update answer)) [
    | inl e ↦ inl (rw (e, check) refl)
    | inr (resp, e) ↦ inr (resp, fetch_update-some answer resp e, rw (e, check) refl)
  ]

  -- An attempt to update either leaves the binary as it was, on every failure, or it did all of this:
  -- the server offered an update; the archive was fetched and its SHA-256 is the one announced, with
  -- the `sha256:` in front; the new binary is the file that the archive holds, and it runs; the old
  -- one was backed up; and the process exits with the code 42.
  pub check_safe :
      (env : Env) (now : ℕ) (version : Text) (answer : Reply (Option UpdateResponse))
      (archive : Reply Text) (d : Disk)
      → ((check sha256_hex untar runs env now version answer archive d).0.bin ≡ d.bin)
        ⊎ Installed env now version answer archive d
  check_safe env now version answer archive d = elim (reached env now version answer archive d) [
    | inl same_bin ↦ inl same_bin
    | inr (resp, offered, c) ↦ elim (offer_lem env now version resp archive d) [
      | inl same_bin ↦ inl (ap (λ x. x.0.bin) c ∙ same_bin)
      | inr (tar, wanted, fetched, o) ↦
          let e = c ∙ o in
          elim (archive_lem env now version resp tar d) [
            | inl same_bin ↦ inl (ap (λ x. x.0.bin) e ∙ same_bin)
            | inr (new, intact, extracted, works, bin, out, made) ↦ inr (record {
              resp = resp;
              tar = tar;
              new = new;
              offered = offered;
              wanted = wanted;
              fetched = fetched;
              intact = intact;
              extracted = extracted;
              works = works;
              replaced = ap (λ x. x.0.bin) e ∙ bin;
              left = ap (λ x. x.1) e ∙ out;
              backed_up = made;
            })
          ]
    ]
  ]
