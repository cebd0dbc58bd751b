-- ===== src/Updater/Check/Progress.antt =====
-- An update where nothing fails.
use topsrv.Base.{
  ℕ, ◌≡◌, ◌∙◌, Bool, true, false, List, [], ◌∷◌, ◌++◌, none, some, Text, same, same_eq, same_refl,
  is_empty, has_prefix-append, trim_prefix, drop, length, length-append, refl, ap, arith, inl, inr,
  Bool-cases,
}
use topsrv.Updater.Rollback.{exited, update_exit_code}
use topsrv.Updater.Disk.{
  make_state_dir, write_state, open_new, create_staged, copy_staged, close_staged, rename_staged,
  make_temp, create_tar, copy_tar, close_tar, open_tar, Disk, Env, Op, UpdateState, saved,
  save_state, replace,
}
use topsrv.Updater.Backups.{succeeded, backup}
use topsrv.Updater.Check.{
  UpdateResponse, answered, status_ok, fetch_update, download, sha256_prefix, Item, verify_checksum,
  extract_binary, install, try_archive, try_offer, check,
}

drop-append : (p s : Text) → drop (length p) (p ++ s) ≡ s
drop-append [] s = refl
drop-append (c ∷ p) s = drop-append p s

trim_prefix-of_append : (p s : Text) → trim_prefix p (p ++ s) ≡ s
unfolding trim_prefix
trim_prefix-of_append p s = rw (has_prefix-append p s) (drop-append p s)

longer-same : (p s : Text) → is_empty p ≡ false → same s (p ++ s) ≡ false
longer-same [] s nonempty = absurd (ground arith)
longer-same (c ∷ p) s nonempty = elim (Bool-cases (same s (c ∷ p ++ s))) [
  | inr f ↦ f
  | inl t ↦ absurd (omega (arith, ap length (same_eq s (c ∷ p ++ s) t), length-append p s))
]

save_works :
    (env : Env) (s : UpdateState) (d : Disk)
    → ((op : Op) → env.ok op ≡ true)
    → save_state env s d ≡ record d { state = saved s }
unfolding save_state
save_works env s d works = rw (works make_state_dir, save_state, works write_state) refl

replace_works :
    (env : Env) (new : Text) (d : Disk)
    → ((op : Op) → env.ok op ≡ true)
    → replace env (some new) d ≡ (record d { bin = some new; staged = none }, true)
unfolding replace
replace_works env new d works =
    rw
      (
        works open_new,
        replace,
        works create_staged,
        works copy_staged,
        works close_staged,
        works rename_staged,
      )
      refl

-- The state that is saved before the new binary is put in place.
abbrev pub state_after : ℕ → Text → UpdateResponse → UpdateState
state_after now version resp = record {
  last_update = now;
  previous_version = version;
  current_version = resp.version;
  restart_count = 0;
  graceful = false;
}

module _ (sha256_hex : Text → Text) (untar : Text → List Item) (runs : Text → Bool) where
  verify_works :
      (env : Env) (tar : Text)
      → ((op : Op) → env.ok op ≡ true)
      → is_empty (sha256_hex tar) ≡ false
      → verify_checksum sha256_hex env tar (sha256_prefix ++ sha256_hex tar) ≡ true
  unfolding verify_checksum
  verify_works env tar works nonempty =
      rw
        (
          trim_prefix-of_append sha256_prefix (sha256_hex tar),
          verify_checksum,
          nonempty,
          longer-same sha256_prefix (sha256_hex tar) refl,
          works open_tar,
        )
        (same_refl (sha256_hex tar))

  install_works :
      (env : Env) (now : ℕ) (version : Text) (resp : UpdateResponse) (new : Text) (d : Disk)
      → ((op : Op) → env.ok op ≡ true)
      → (backup env version d).1 ≡ succeeded
      → ((install sha256_hex untar runs env now version resp new d).0.bin ≡ some new)
        × ((install sha256_hex untar runs env now version resp new d).0.state
            ≡ saved (state_after now version resp))
        × ((install sha256_hex untar runs env now version resp new d).0.backups
            ≡ (backup env version d).0.backups)
        × ((install sha256_hex untar runs env now version resp new d).1 ≡ exited update_exit_code)
  unfolding install
  install_works env now version resp new d works made =
      rw
        (
          made,
          install,
          save_works env (state_after now version resp) (backup env version d).0 works,
          replace_works env new
              (record (backup env version d).0 { state = saved (state_after now version resp) })
              works,
        )
        (refl, refl, refl, refl)

  archive_works :
      (env : Env) (now : ℕ) (version : Text) (resp : UpdateResponse) (tar new : Text) (d : Disk)
      → ((op : Op) → env.ok op ≡ true)
      → resp.checksum ≡ sha256_prefix ++ sha256_hex tar
      → is_empty (sha256_hex tar) ≡ false
      → extract_binary env (untar tar) ≡ some new
      → runs new ≡ true
      → try_archive sha256_hex untar runs env now version resp tar d
        ≡ install sha256_hex untar runs env now version resp new d
  unfolding try_archive install
  archive_works env now version resp tar new d works sum some_sum extracted starts =
      rw (sum, try_archive, verify_works env tar works some_sum, extracted, starts) refl

  offer_works :
      (env : Env) (now : ℕ) (version : Text) (resp : UpdateResponse) (tar : Text) (d : Disk)
      → ((op : Op) → env.ok op ≡ true)
      → resp.update ≡ true
      → check sha256_hex untar runs env now version
          (answered status_ok (some resp))
          (answered status_ok tar)
          d
        ≡ try_archive sha256_hex untar runs env now version resp tar d
  unfolding check fetch_update try_offer download try_archive
  offer_works env now version resp tar d works offered =
      rw (offered, try_offer, works make_temp, works create_tar, works copy_tar, works close_tar)
        refl

  -- Where nothing fails, an update that is offered is installed: if the server offers an archive with
  -- its SHA-256, every system call works, the old binary can be backed up, the archive holds a binary
  -- and that runs, then the binary is the new one, the state for the crash guard is saved with the
  -- version before it, and the process exits with the code 42.
  pub check_installs :
      (env : Env) (now : ℕ) (version : Text) (resp : UpdateResponse) (tar new : Text) (d : Disk)
      → ((op : Op) → env.ok op ≡ true)
      → resp.update ≡ true
      → resp.checksum ≡ sha256_prefix ++ sha256_hex tar
      → is_empty (sha256_hex tar) ≡ false
      → extract_binary env (untar tar) ≡ some new
      → runs new ≡ true
      → (backup env version d).1 ≡ succeeded
      → let after =
          check sha256_hex untar runs env now version
            (answered status_ok (some resp))
            (answered status_ok tar)
            d in
        (after.0.bin ≡ some new)
        × (after.0.state ≡ saved (state_after now version resp))
        × (after.0.backups ≡ (backup env version d).0.backups)
        × (after.1 ≡ exited update_exit_code)
  check_installs env now version resp tar new d works offered sum some_sum extracted starts made =
      let tried =
        archive_works env now version resp tar new d works sum some_sum extracted starts in
      let whole = offer_works env now version resp tar d works offered in
      let e = whole ∙ tried in
      let (bin, state, backups, out) = install_works env now version resp new d works made in
      (
        ap (λ x. x.0.bin) e ∙ bin,
        ap (λ x. x.0.state) e ∙ state,
        ap (λ x. x.0.backups) e ∙ backups,
        ap (λ x. x.1) e ∙ out,
      )
