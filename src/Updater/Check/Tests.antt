-- ===== src/Updater/Check/Tests.antt =====
-- An update that succeeds.
use topsrv.Base.{◌≡◌, ◌⊎◌, true, List, [], ◌∷◌, some, Text, codes, same, split, refl}
use topsrv.Updater.Disk.{Disk, saved, find_backup}
use topsrv.Updater.Backups.{backup, write_backup, store_backup, trim_backups, file_names, succeeded}
use topsrv.Updater.Rollback.{Process, exited, update_exit_code}
use topsrv.Updater.Check.{UpdateResponse, answered, Item, entry, check, extract_binary, base}
use topsrv.Updater.Check.Progress.{state_after, check_installs}
use topsrv.Updater.Check.Safety.{Installed, check_safe}
use topsrv.Updater.Tests.{calm, hour, disk}

-- A hash that gives the text itself, and an archive of one file.
abbrev offer : UpdateResponse
offer = record { update = true; version = codes "0.2"; url = []; checksum = codes "sha256:next" }

abbrev pack : Text → List Item
pack t = entry true (codes "topsrv") t ∷ []

check_safe_example :
    ((check
        (λ t. t)
        pack
        (λ t. true)
        calm
        hour
        (codes "0.1")
        (answered 200 (some offer))
        (answered 200 (codes "next"))
        disk).0.bin
      ≡ disk.bin)
    ⊎ Installed
        (λ t. t)
        pack
        (λ t. true)
        calm
        hour
        (codes "0.1")
        (answered 200 (some offer))
        (answered 200 (codes "next"))
        disk
check_safe_example =
    check_safe (λ t. t) pack (λ t. true) calm hour (codes "0.1") (answered 200 (some offer))
      (answered 200 (codes "next")) disk

abbrev updated : Disk × Process
updated =
    check (λ t. t) pack (λ t. true) calm hour (codes "0.1") (answered 200 (some offer))
      (answered 200 (codes "next")) disk

next-extracted : extract_binary calm (pack (codes "next")) ≡ some (codes "next")
unfolding extract_binary base split same
next-extracted = refl

old-kept : (backup calm (codes "0.1") disk).1 ≡ succeeded
unfolding backup write_backup find_backup same trim_backups file_names store_backup
old-kept = refl

check_installs_example :
    (updated.0.bin ≡ some (codes "next"))
    × (updated.0.state ≡ saved (state_after hour (codes "0.1") offer))
    × (updated.0.backups ≡ (backup calm (codes "0.1") disk).0.backups)
    × (updated.1 ≡ exited update_exit_code)
check_installs_example =
    check_installs (λ t. t) pack (λ t. true) calm hour (codes "0.1") offer (codes "next")
      (codes "next") disk (λ op. refl) refl refl refl next-extracted refl old-kept
