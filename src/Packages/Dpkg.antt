-- ===== src/Packages/Dpkg.antt =====
-- The manager dpkg, internal/topsrv/packages/dpkg.go.
pub mod Paragraphs
use topsrv.Base.{
  map, some, ◌||◌, atoi, trim_space, false, none, mul_int64, same, store_field, true, scan_lines,
  eqb, Option, is_empty, lookup, cut_at, ◌++◌, Bool, any, ◌∷◌, codes, ◌^◌, [], if◌then◌else◌, List,
  Fields, Text, ℕ,
}
use topsrv.Packages.Snapshot.{
  Package, no_package, Snapshot, Files, by_arch, manager_dpkg, status_installed,
  status_hold_installed,
}

abbrev pub dpkg_status_path : Text
dpkg_status_path = codes "/var/lib/dpkg/status"

abbrev pub apt_ext_states_path : Text
apt_ext_states_path = codes "/var/lib/apt/extended_states"

-- The state between two lines: the records so far, the current one, and the last key.
pub record Parser : Type 0 where
  pub records : List Fields
  pub cur : Fields
  pub last_key : Text

abbrev pub start : Parser
start = record { records = []; cur = []; last_key = [] }

abbrev pub is_empty_record : Fields → Bool
is_empty_record [] = true
is_empty_record (f ∷ m) = false

unfoldable pub flush : Parser → Parser
flush p =
    if is_empty_record p.cur
    then p
    else record { records = p.records ++ (p.cur ∷ []); cur = []; last_key = [] }

unfoldable pub continue_line : Text → Parser → Parser
continue_line line p = if is_empty p.last_key then p else record p {
  cur = store_field p.last_key (lookup p.last_key p.cur ++ (10 ∷ trim_space line)) p.cur;
}

unfoldable pub field_line : Text → Parser → Parser
field_line line p = elim (cut_at b':' line) [
  | none ↦ p
  | some (key, value) ↦
      if is_empty key
      then p
      else record p { cur = store_field key (trim_space value) p.cur; last_key = key }
]

unfoldable pub parse_line : Text → Parser → Parser
parse_line [] p = flush p
parse_line (c ∷ line) p =
    if eqb c 32 || eqb c 9 then continue_line (c ∷ line) p else field_line (c ∷ line) p

unfoldable pub parse_lines : List Text → Parser → Parser
parse_lines [] p = flush p
parse_lines (l ∷ ls) p = parse_lines ls (parse_line l p)

abbrev pub max_line : ℕ
max_line = 2 ^ 20

-- No records where the scanner fails.
unfoldable pub parse_rfc822 : Text → Option (List Fields)
parse_rfc822 s =
    let (lines, ok) = scan_lines max_line s in
    if ok then some (parse_lines lines start).records else none

-- An index of 0 counts as none, for either parenthesis.
unfoldable pub parse_source : Text → Text → Text × Text
parse_source raw binary_name = if is_empty raw then (binary_name, []) else elim (cut_at b'(' raw) [
  | none ↦ (raw, [])
  | some (before, rest) ↦ if is_empty before then (raw, []) else (
    trim_space before,
    elim (cut_at b')' rest) [ none ↦ [] | some (v, behind) ↦ trim_space v ],
  )
]

abbrev is_installed : Text → Bool
is_installed status = same status status_installed || same status status_hold_installed

unfoldable pub package_of : Fields → Package
package_of r =
    let (source, version) = parse_source (lookup (codes "Source") r) (lookup (codes "Package") r) in
    record no_package {
      name = lookup (codes "Package") r;
      version = lookup (codes "Version") r;
      arch = lookup (codes "Architecture") r;
      status = lookup (codes "Status") r;
      source_name = source;
      source_version = version;
      vendor = lookup (codes "Maintainer") r;
      installed_size = mul_int64 (atoi (lookup (codes "Installed-Size") r)).0 1024;
      section = lookup (codes "Section") r;
      priority = lookup (codes "Priority") r;
      homepage = lookup (codes "Homepage") r;
    }

unfoldable pub packages_of : List Fields → List Package
packages_of [] = []
packages_of (r ∷ rs) =
    let rest = packages_of rs in
    if is_installed (lookup (codes "Status") r) then package_of r ∷ rest else rest

unfoldable pub auto_keys : List Fields → List Text
auto_keys [] = []
auto_keys (r ∷ rs) =
    let rest = auto_keys rs in
    if same (lookup (codes "Auto-Installed") r) (codes "1")
    then by_arch (lookup (codes "Package") r) (lookup (codes "Architecture") r) ∷ rest
    else rest

abbrev pub mark_auto : List Text → Package → Package
mark_auto auto p =
    if any (same (by_arch p.name p.arch)) auto then record p { auto_installed = true } else p

unfoldable pub enrich_auto_installed : Files → Text → List Package → List Package
enrich_auto_installed files root pkgs = elim (files (root ++ apt_ext_states_path)) [
  | none ↦ pkgs
  | some s ↦ elim (parse_rfc822 s) [
    | none ↦ pkgs
    | some records ↦ map (mark_auto (auto_keys records)) pkgs
  ]
]

unfoldable pub scan : Files → Text → Option Snapshot
scan files root = elim (files (root ++ dpkg_status_path)) [
  | none ↦ none
  | some s ↦ elim (parse_rfc822 s) [
    | none ↦ none
    | some records ↦ some (record {
      manager = manager_dpkg;
      packages = enrich_auto_installed files root (packages_of records);
      reboot_required = false;
    })
  ]
]
