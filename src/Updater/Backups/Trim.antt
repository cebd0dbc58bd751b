-- ===== src/Updater/Backups/Trim.antt =====
-- What trimBackups leaves in the backup directory.
use topsrv.Base.{
  All-map, subst, ◌+◌, ◌-◌, ◌≤◌, ◌≡◌, sym, ap, Bool, true, not, List, [], ◌∷◌, ◌++◌, none, some,
  Text, same, same_iff, same_refl, same_eq, length, take, drop, keep, All, sort, count-sort,
  if◌then◌else◌, arith, refl, Bool-cases, inl, inr, take-append-drop, text_lt, length-drop,
  length-keep-le,
}
use topsrv.Updater.Disk.{Entry, file, directory, Env, find_backup, read_backup_dir, remove_backup}
use topsrv.Updater.Version.{older}
use topsrv.Updater.Version.Order.{release}
use topsrv.Updater.Backups.{
  update_max_backups, file_names, elem, remove_all, doomed_names, trim_backups,
}

abbrev pub Removes : Env → Type 0
Removes env = (name : Text) → env.ok (remove_backup name) ≡ true

-- The order of backup names as an order of lists of numbers.
abbrev pub before : Text → Text → Bool
before a b = text_lt (release a) (release b)

pub All-elem {κ} :
    (P : Text → Type κ) (k : Text) (xs : List Text) → All P xs → elem k xs ≡ true → P k
All-elem P k [] h m = absurd (cc)
All-elem P k (x ∷ xs) (p, h) m = elim (Bool-cases (same k x)) [
  | inl e ↦ subst P (sym (same_eq k x e)) p
  | inr ne ↦ All-elem P k xs h (ground arith)
]

pub find-remove_all :
    (env : Env) (k : Text) (doomed : List Text) (l : List (Text × Entry))
    → Removes env
    → find_backup k (remove_all env doomed l) ≡ (if elem k doomed then none else find_backup k l)
unfolding find_backup remove_all
find-remove_all env k doomed [] ok = ground arith
find-remove_all env k doomed ((n, e) ∷ l) ok =
    ground (arith, find-remove_all env k doomed l ok, ok n, same_iff n k)

count_left :
    (env : Env) (doomed : List Text) (l : List (Text × Entry))
    → Removes env
    → file_names (remove_all env doomed l) ≡ keep (λ n. not (elem n doomed)) (file_names l)
unfolding remove_all file_names
count_left env doomed [] ok = refl
count_left env doomed ((n, file t) ∷ l) ok = ground (arith, count_left env doomed l ok, ok n)
count_left env doomed ((n, directory) ∷ l) ok = ground (arith, count_left env doomed l ok, ok n)

All-elem_self : (xs : List Text) → All (λ n. elem n xs ≡ true) xs
All-elem_self [] = tt
All-elem_self (x ∷ xs) = (
  rw (same_refl x),
  All-map (λ n. elem n xs ≡ true) (λ n. elem n (x ∷ xs) ≡ true) (λ n h. ground arith) xs
      (All-elem_self xs),
)

none_kept :
    (doomed xs : List Text)
    → All (λ n. elem n doomed ≡ true) xs
    → length (keep (λ n. not (elem n doomed)) xs) ≡ 0
none_kept doomed [] h = refl
none_kept doomed (x ∷ xs) (e, h) = rw e (none_kept doomed xs h)

length-keep-append :
    (p : Text → Bool) (xs ys : List Text)
    → length (keep p (xs ++ ys)) ≡ length (keep p xs) + length (keep p ys)
length-keep-append p [] ys = omega arith
length-keep-append p (x ∷ xs) ys = ground (arith, length-keep-append p xs ys)

doomed_bound :
    (l : List (Text × Entry))
    → length (keep (λ n. not (elem n (doomed_names l))) (file_names l)) ≤ update_max_backups
unfolding doomed_names
doomed_bound l =
    let names = file_names l in
    let sorted = sort older names in
    let n = length sorted - update_max_backups in
    let p : Text → Bool = λ x. not (elem x (take n sorted)) in
    omega (
      arith,
      count-sort older p names,
      length-drop n sorted,
      none_kept (take n sorted) (take n sorted) (All-elem_self (take n sorted)),
      length-keep-append p (take n sorted) (drop n sorted),
      ap (λ t. length (keep p t)) (take-append-drop n sorted),
      length-keep-le p (drop n sorted),
    )

length-file_names-le : (l : List (Text × Entry)) → length (file_names l) ≤ length l
unfolding file_names
length-file_names-le [] = omega arith
length-file_names-le ((n, file t) ∷ l) = omega (arith, length-file_names-le l)
length-file_names-le ((n, directory) ∷ l) = omega (arith, length-file_names-le l)

-- Trimming leaves at most two files, whatever they are called, if the directory can be read and no
-- removal fails.
pub trim_count :
    (env : Env) (l l' : List (Text × Entry))
    → Removes env
    → env.ok read_backup_dir ≡ true
    → trim_backups env l ≡ some l'
    → length (file_names l') ≤ update_max_backups
unfolding trim_backups
trim_count env l l' ok read h = ground (
  arith,
  length-file_names-le l,
  doomed_bound l,
  ap length (count_left env (doomed_names l) l ok),
)
