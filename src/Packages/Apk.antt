-- ===== src/Packages/Apk.antt =====
-- The manager apk, internal/topsrv/packages/apk.go.
use topsrv.Base.{
  map, drop, false, some, ◌||◌, ◌*◌, same, store_field, has_prefix, none, atoi, is_empty, [], true,
  trim_space, any, scan_lines, eqb, Option, lookup, if◌then◌else◌, ◌++◌, Bool, ◌∷◌, codes, List,
  Fields, Text,
}
use topsrv.Packages.Snapshot.{Package, no_package, Snapshot, Files, manager_apk, status_generic}

abbrev pub apk_installed_path : Text
apk_installed_path = codes "/lib/apk/db/installed"

abbrev pub apk_world_path : Text
apk_world_path = codes "/etc/apk/world"

abbrev add_record : Fields → List Fields → List Fields
add_record [] records = records
add_record (f ∷ cur) records = (f ∷ cur) ∷ records

-- A line "k:value" with a key of one byte.
abbrev pub apk_field : Text → Fields → Fields
apk_field [] cur = cur
apk_field (c ∷ []) cur = cur
apk_field (c ∷ d ∷ s) cur = if eqb d b':' then store_field (c ∷ []) s cur else cur

unfoldable pub parse_db_lines : List Text → Fields → List Fields
parse_db_lines [] cur = add_record cur []
parse_db_lines (l ∷ ls) cur =
    let record_ends = parse_db_lines ls [] in
    let goes_on = parse_db_lines ls (apk_field l cur) in
    if is_empty l then add_record cur record_ends else goes_on

unfoldable pub parse_db : Text → Option (List Fields)
parse_db s =
    let (lines, ok) = scan_lines (64 * 1024) s in
    if ok then some (parse_db_lines lines []) else none

abbrev pub set_checksum : Text → Package → Package
set_checksum c p =
    if is_empty c
    then p
    else if has_prefix (codes "Q1") c
    then record p { sig_digest = drop 2 c; sig_algorithm = codes "sha1" }
    else if has_prefix (codes "Q2") c
    then record p { sig_digest = drop 2 c; sig_algorithm = codes "sha256" }
    else record p { sig_digest = c }

unfoldable pub apk_package : Fields → Package
apk_package r =
    let license = lookup (codes "L") r in
    set_checksum (lookup (codes "C") r) (record no_package {
      name = lookup (codes "P") r;
      version = lookup (codes "V") r;
      arch = lookup (codes "A") r;
      status = status_generic;
      source_name = lookup (codes "o") r;
      vendor = lookup (codes "m") r;
      install_time = (atoi (lookup (codes "t") r)).0;
      installed_size = (atoi (lookup (codes "I") r)).0;
      homepage = lookup (codes "U") r;
      git_commit = lookup (codes "c") r;
      licenses = if is_empty license then [] else license ∷ [];
    })

unfoldable pub apk_packages : List Fields → List Package
apk_packages [] = []
apk_packages (r ∷ rs) =
    let rest = apk_packages rs in
    if is_empty (lookup (codes "P") r) then rest else apk_package r ∷ rest

-- What stands before a version constraint.
unfoldable pub world_name : Text → Text
world_name [] = []
world_name (c ∷ s) =
    let rest = world_name s in
    if eqb c b'<' || eqb c b'>' || eqb c b'=' || eqb c b'~' then [] else c ∷ rest

abbrev is_comment : Text → Bool
is_comment [] = true
is_comment (c ∷ s) = eqb c b'#'

unfoldable pub manual_of : List Text → List Text
manual_of [] = []
manual_of (l ∷ ls) =
    let rest = manual_of ls in
    if is_comment (trim_space l) then rest else trim_space (world_name (trim_space l)) ∷ rest

abbrev pub mark_dependency : List Text → Package → Package
mark_dependency manual p =
    if any (same p.name) manual then p else record p { auto_installed = true }

-- The default buffer of a scanner is 64 KiB; the lines before an error count.
unfoldable pub mark_dependencies : Files → Text → List Package → List Package
mark_dependencies files root pkgs = elim (files (root ++ apk_world_path)) [
  | none ↦ pkgs
  | some s ↦ map (mark_dependency (manual_of (scan_lines (64 * 1024) s).0)) pkgs
]

unfoldable pub scan : Files → Text → Option Snapshot
scan files root = elim (files (root ++ apk_installed_path)) [
  | none ↦ none
  | some s ↦ elim (parse_db s) [
    | none ↦ none
    | some records ↦ some (record {
      manager = manager_apk;
      packages = mark_dependencies files root (apk_packages records);
      reboot_required = false;
    })
  ]
]
