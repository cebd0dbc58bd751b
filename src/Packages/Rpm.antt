-- ===== src/Packages/Rpm.antt =====
-- The manager rpm, internal/topsrv/packages/rpm.go and dnf_history.go. The rpm database and SQLite
-- are libraries: their rows are arguments.
pub mod History
use topsrv.Base.{
  drop, take, zero, has_prefix, map, length, not, ◌+◌, ◌||◌, true, suc, ℤ, ◌&&◌, some, false, same,
  is_empty, eqb, none, codes, leb, ◌++◌, [], Option, Bool, List, Text, ◌∷◌, if◌then◌else◌, ℕ,
}
use topsrv.Packages.SourceRpm.{parse_src_rpm}
use topsrv.Packages.Snapshot.{
  Package, no_package, Snapshot, Files, by_arch, file_exists, manager_rpm, status_generic,
}

abbrev pub rpm_db_candidates : List Text
rpm_db_candidates =
    codes "/var/lib/rpm/rpmdb.sqlite"
    ∷ codes "/var/lib/rpm/Packages.db"
    ∷ codes "/var/lib/rpm/Packages"
    ∷ codes "/usr/lib/sysimage/rpm/rpmdb.sqlite"
    ∷ codes "/usr/lib/sysimage/rpm/Packages.db"
    ∷ codes "/usr/lib/sysimage/rpm/Packages"
    ∷ []

unfoldable pub find_first : Files → Text → List Text → Text
find_first files root [] = []
find_first files root (p ∷ ps) =
    let rest = find_first files root ps in if file_exists files (root ++ p) then root ++ p else rest

unfoldable pub find_db : Files → Text → Text
unfolding find_first
find_db files root = find_first files root rpm_db_candidates

-- rpmdb.PackageInfo, as far as it is read.
pub record PackageInfo : Type 0 where
  pub name : Text
  pub version : Text
  pub release : Text
  pub epoch : Option ℤ
  pub arch : Text
  pub source_rpm : Text
  pub modularity_label : Text
  pub vendor : Text
  pub pgp : Text
  pub rsa_header : Text
  pub install_time : ℤ
  pub size : ℤ
  pub sig_md5 : Text
  pub license : Text

abbrev lower : ℕ → ℕ
lower c = if leb b'A' c && leb c b'Z' then c + 32 else c

abbrev is_hex : ℕ → Bool
is_hex c = leb b'0' c && leb c b'9' || leb b'a' (lower c) && leb (lower c) b'f'

-- At most n bytes of [0-9a-f], in lower case.
unfoldable pub hex_run : ℕ → Text → Text
hex_run zero s = []
hex_run (suc n) [] = []
hex_run (suc n) (c ∷ s) = let rest = hex_run n s in if is_hex c then lower c ∷ rest else []

-- What stands behind "Key ID " in any case; the sign of kelvin (E2 84 AA) folds to k.
abbrev behind_k : Text → Option Text
behind_k [] = none
behind_k (c ∷ s) =
    if eqb (lower c) b'k'
    then some s
    else if has_prefix (226 ∷ 132 ∷ 170 ∷ []) (c ∷ s)
    then some (drop 2 s)
    else none

abbrev behind_label : Text → Option Text
behind_label s = elim (behind_k s) [
  | none ↦ none
  | some t ↦ if same (map lower (take 6 t)) (codes "ey id ") then some (drop 6 t) else none
]

abbrev key_at : Text → Option Text
key_at s = elim (behind_label s) [
  | none ↦ none
  | some t ↦ if leb 8 (length (hex_run 40 t)) then some (hex_run 40 t) else none
]

-- keyIDRe.FindStringSubmatch, in lower case
unfoldable pub find_key : Text → Option Text
find_key [] = none
find_key (c ∷ s) =
    let rest = find_key s in elim (key_at (c ∷ s)) [ none ↦ rest | some key ↦ some key ]

unfoldable pub extract_key_id : List Text → Text
extract_key_id [] = []
extract_key_id (f ∷ fs) =
    let rest = extract_key_id fs in elim (find_key f) [ none ↦ rest | some key ↦ key ]

unfoldable pub to_package : PackageInfo → Package
to_package p =
    let (source, version) = parse_src_rpm p.source_rpm in
    record no_package {
      name = p.name;
      version = p.version;
      release = p.release;
      epoch = p.epoch;
      arch = p.arch;
      status = status_generic;
      source_name = source;
      source_version = version;
      modularity_label = p.modularity_label;
      vendor = p.vendor;
      gpg_key_id = extract_key_id (p.pgp ∷ p.rsa_header ∷ []);
      install_time = p.install_time;
      installed_size = p.size;
      sig_digest = p.sig_md5;
      sig_algorithm = if is_empty p.sig_md5 then [] else codes "md5";
      licenses = if is_empty p.license then [] else p.license ∷ [];
    }

-- A row of the history: its reason and action are the numbers of libdnf.
pub record Row : Type 0 where
  pub name : Text
  pub arch : Text
  pub repo : Text
  pub reason : ℕ
  pub action : ℕ

pub record Entry : Type 0 where
  pub repo : Text
  pub initial_reason : ℕ
  pub has_install : Bool

abbrev pub dnf_action_install : ℕ
dnf_action_install = 1

abbrev pub no_entry : Entry
no_entry = record { repo = []; initial_reason = 0; has_install = false }

unfoldable pub find_entry : Text → List (Text × Entry) → Option Entry
find_entry key [] = none
find_entry key ((k, e) ∷ m) = let rest = find_entry key m in if same k key then some e else rest

abbrev pub entry_or : Option Entry → Entry
entry_or none = no_entry
entry_or (some e) = e

unfoldable pub add_row : Row → Entry → Entry
add_row row e =
    let e' : Entry =
      if eqb row.action dnf_action_install && not e.has_install
      then record e { initial_reason = row.reason; has_install = true }
      else e in
    if is_empty row.repo then e' else record e' { repo = row.repo }

unfoldable pub put_entry : Text → Entry → List (Text × Entry) → List (Text × Entry)
put_entry key e [] = (key, e) ∷ []
put_entry key e ((k, old) ∷ m) =
    let rest = put_entry key e m in if same k key then (k, e) ∷ m else (k, old) ∷ rest

-- The rows in the order of their id.
unfoldable pub latest_of : List Row → List (Text × Entry) → List (Text × Entry)
latest_of [] m = m
latest_of (row ∷ rows) m =
    let key = by_arch row.name row.arch in
    latest_of rows (put_entry key (add_row row (entry_or (find_entry key m))) m)

-- Dependency, weak dependency, group.
abbrev pub is_auto_install_reason : ℕ → Bool
is_auto_install_reason r = eqb r 1 || eqb r 4 || eqb r 5

abbrev pub with_origin : Entry → Package → Package
with_origin e p =
    if is_empty e.repo || same e.repo (codes "@System")
    then p
    else record p { repo_origin = e.repo }

abbrev pub with_reason : Entry → Package → Package
with_reason e p =
    if e.has_install && is_auto_install_reason e.initial_reason
    then record p { auto_installed = true }
    else p

abbrev pub enrich_one : List (Text × Entry) → Package → Package
enrich_one latest p = elim (find_entry (by_arch p.name p.arch) latest) [
  | none ↦ p
  | some e ↦ with_reason e (with_origin e p)
]

-- No rows where the history cannot be opened or read.
unfoldable pub enrich_from_dnf_history : Option (List Row) → List Package → List Package
enrich_from_dnf_history none pkgs = pkgs
enrich_from_dnf_history (some rows) pkgs = map (enrich_one (latest_of rows [])) pkgs

-- `infos` are those of the database that find_db names; none where it is not found or read.
unfoldable pub scan : Option (List PackageInfo) → Option (List Row) → Option Snapshot
scan none history = none
scan (some infos) history = some (record {
  manager = manager_rpm;
  packages = enrich_from_dnf_history history (map to_package infos);
  reboot_required = false;
})
