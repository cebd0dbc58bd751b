-- ===== src/Updater/Backups/Downgrade.antt =====
-- The backup of a version that is older than the backups at hand.
use topsrv.Base.{
  same_eq, ◌⊎◌, ◌≡◌, ◌∙◌, ap, true, false, List, [], ◌∷◌, none, some, Text, same, same_refl, sort,
  insert, sort_congr, text_lt, text_lt_asym, text_lt_irrefl, arith, refl, Bool-cases, inl, inr,
}
use topsrv.Updater.Disk.{
  Disk, Entry, file, Env, find_backup, read_backup_dir, make_backup_dir, open_bin, create_backup,
  copy_backup, close_backup,
}
use topsrv.Updater.Version.{older}
use topsrv.Updater.Version.Order.{IsPlain, release, older-lex}
use topsrv.Updater.Backups.{
  backup, backup_name, write_backup, store_backup, trim_backups, doomed_names, file_names,
  remove_all, elem, after_copy, succeeded,
}
use topsrv.Updater.Backups.Trim.{Removes, find-remove_all, before}

-- Nothing fails that a backup needs.
abbrev pub Writes : Env → Type 0
Writes env =
    (env.ok make_backup_dir ≡ true)
    × (env.ok open_bin ≡ true)
    × (env.ok create_backup ≡ true)
    × (env.ok copy_backup ≡ true)
    × (env.ok close_backup ≡ true)
    × (env.ok read_backup_dir ≡ true)

-- The directory with a new backup in it, and two others.
abbrev three : Text → Text → Text → Text → Text → Text → List (Text × Entry)
three a b dest x y c = (a, file x) ∷ (b, file y) ∷ (dest, file c) ∷ []

sorted_three :
    (a b dest : Text)
    → before dest a ≡ true
    → before dest b ≡ true
    → (sort before (a ∷ b ∷ dest ∷ []) ≡ dest ∷ a ∷ b ∷ [])
      ⊎ (sort before (a ∷ b ∷ dest ∷ []) ≡ dest ∷ b ∷ a ∷ [])
unfolding sort insert
sorted_three a b dest ha hb =
    ground (
      arith,
      text_lt_asym (release dest) (release b) hb,
      text_lt_asym (release dest) (release a) ha,
    )

doomed_three :
    (a b dest x y c : Text)
    → IsPlain a
    → IsPlain b
    → IsPlain dest
    → older dest a ≡ true
    → older dest b ≡ true
    → elem dest (doomed_names (three a b dest x y c)) ≡ true
unfolding doomed_names file_names
doomed_three a b dest x y c pa pb pd ha hb =
    let e = sort_congr older before IsPlain older-lex (a ∷ b ∷ dest ∷ []) (pa, (pb, (pd, tt))) in
    elim (sorted_three a b dest (rw (older-lex dest a pd pa) at ha)
      (rw (older-lex dest b pd pb) at hb)) [
        | inl s ↦ rw (e ∙ s) (rw (same_refl dest))
        | inr s ↦ rw (e ∙ s) (rw (same_refl dest))
      ]

trim_three :
    (env : Env) (a b dest x y c : Text)
    → env.ok read_backup_dir ≡ true
    → trim_backups env (three a b dest x y c)
      ≡ some (remove_all env (doomed_names (three a b dest x y c)) (three a b dest x y c))
unfolding trim_backups file_names
trim_three env a b dest x y c read = rw read

stored :
    (env : Env) (a b dest x y c : Text) (d : Disk)
    → Writes env
    → same a dest ≡ false
    → same b dest ≡ false
    → d.backups ≡ (a, file x) ∷ (b, file y) ∷ []
    → write_backup env dest c d ≡ (record d { backups = three a b dest x y c }, true)
unfolding write_backup find_backup store_backup
stored env a b dest x y c d w na nb e = ground arith

backup_copied :
    (env : Env) (version c : Text) (d d' : Disk)
    → Writes env
    → d.bin ≡ some c
    → write_backup env (backup_name version) c d ≡ (d', true)
    → backup env version d ≡ after_copy env d'
unfolding backup
backup_copied env version c d d' w bin e = ground arith

after_copy_trimmed :
    (env : Env) (d : Disk) (l : List (Text × Entry))
    → trim_backups env d.backups ≡ some l
    → after_copy env d ≡ (record d { backups = l }, succeeded)
unfolding after_copy
after_copy_trimmed env d l e = rw (e, after_copy)

newer_ne : (a dest : Text) → IsPlain a → IsPlain dest → older dest a ≡ true → same a dest ≡ false
newer_ne a dest pa pd h = elim (Bool-cases (same a dest)) [
  | inr ne ↦ ne
  | inl eq ↦
      let self = rw (older-lex dest a pd pa) at h in
      absurd (
        cc (
          text_lt_irrefl (release dest),
          ap (λ t. text_lt (release dest) (release t)) (same_eq a dest eq),
          self,
        ))
]

-- A backup that worked is gone again when it returns, if the directory held backups of two newer
-- versions: trimming takes the version that is running for the oldest. So it is after a downgrade,
-- and a later rollback finds no file. The names have to be plain, and nothing fails.
pub downgrade_drops_backup :
    (env : Env) (version a b x y c : Text) (d : Disk)
    → Writes env
    → Removes env
    → IsPlain a
    → IsPlain b
    → IsPlain (backup_name version)
    → older (backup_name version) a ≡ true
    → older (backup_name version) b ≡ true
    → d.bin ≡ some c
    → d.backups ≡ (a, file x) ∷ (b, file y) ∷ []
    → ((backup env version d).1 ≡ succeeded)
      × (find_backup (backup_name version) (backup env version d).0.backups ≡ none)
downgrade_drops_backup env version a b x y c d w ok pa pb pd ha hb bin e =
    let dest = backup_name version in
    let l = three a b dest x y c in
    let s = stored env a b dest x y c d w (newer_ne a dest pa pd ha) (newer_ne b dest pb pd hb) e in
    let gone = find-remove_all env dest (doomed_names l) l ok in
    rw (backup_copied env version c d (record d { backups = l }) w bin s) (
      rw
        (after_copy_trimmed env (record d { backups = l }) (remove_all env (doomed_names l) l)
          (trim_three env a b dest x y c w.5))
        (refl, rw (gone, doomed_three a b dest x y c pa pb pd ha hb)))
