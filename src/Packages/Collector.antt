-- ===== src/Packages/Collector.antt =====
-- The collector of packages, internal/topsrv/packages/collector.go, config.go and packages_linux.go.
pub mod Scan
pub mod Api
mod Tests
use topsrv.Base.{
  zero, negsuc, ltb, take, ◌+◌, keep, some, suc, [], same, map, length, is_empty, eqb, none, pos,
  ◌∷◌, codes, true, ◌++◌, Option, ℤ, Bool, List, not, Text, ◌*◌, if◌then◌else◌, ℕ,
}
use topsrv.Packages.Snapshot.{
  Package, HostMeta, Snapshot, Payload, Files, file_exists, manager_dpkg, manager_rpm, manager_apk,
  status_hold_installed,
}
use topsrv.Packages.Marks.{mark_kernel_packages}
use topsrv.Packages.Dpkg.{dpkg_status_path}
use topsrv.Packages.Apk.{apk_installed_path}
use topsrv.Packages.Rpm.{find_db}

-- In seconds; 0 where Validate has set none.
pub record Config : Type 0 where
  pub disabled : Bool
  pub interval : Text
  pub managers : List Text
  pub check_upgrades : Bool
  pub disable_push : Bool
  pub max_packages : ℤ
  pub parsed : ℕ

abbrev default_interval : ℕ
default_interval = 6 * 3600

abbrev pub default_max_packages : ℕ
default_max_packages = 10000

abbrev parsed_interval : Config → ℕ
parsed_interval c = if eqb c.parsed 0 then default_interval else c.parsed

abbrev pub positive_or : ℤ → ℕ → ℕ
positive_or (pos zero) d = d
positive_or (pos (suc n)) d = suc n
positive_or (negsuc n) d = d

abbrev pub max_packages_or_default : Config → ℕ
max_packages_or_default c = positive_or c.max_packages default_max_packages

-- `duration` is time.ParseDuration, with no value where it fails; a negative one counts as 0.
unfoldable pub validate : (Text → Option ℕ) → Config → Option Config
validate duration c =
    if is_empty c.interval
    then some (record c { parsed = default_interval })
    else elim (duration c.interval) [
      | none ↦ none
      | some d ↦ if ltb d 60 then none else some (record c { parsed = d })
    ]

-- A manager with its Scan, which gives no snapshot on an error.
pub record ManagerFunc : Type 0 where
  pub name : Text
  pub scan : Option Snapshot

-- The scans of the three managers, as they would end now.
pub record Scans : Type 0 where
  pub files : Files
  pub dpkg : Option Snapshot
  pub rpm : Option Snapshot
  pub apk : Option Snapshot

abbrev dpkg_func : Scans → ManagerFunc
dpkg_func s = record { name = manager_dpkg; scan = s.dpkg }

abbrev rpm_func : Scans → ManagerFunc
rpm_func s = record { name = manager_rpm; scan = s.rpm }

abbrev apk_func : Scans → ManagerFunc
apk_func s = record { name = manager_apk; scan = s.apk }

abbrev only_if : Bool → ManagerFunc → List ManagerFunc
only_if b f = if b then f ∷ [] else []

unfoldable pub detect_managers : Scans → List ManagerFunc
unfolding find_db
detect_managers s =
    only_if (file_exists s.files dpkg_status_path) (dpkg_func s)
    ++ (only_if (not (is_empty (find_db s.files []))) (rpm_func s)
        ++ only_if (file_exists s.files apk_installed_path) (apk_func s))

unfoldable pub named_managers : Scans → List Text → List ManagerFunc
named_managers s [] = []
named_managers s (name ∷ names) =
    let rest = named_managers s names in
    if same name manager_dpkg
    then dpkg_func s ∷ rest
    else if same name manager_rpm
    then rpm_func s ∷ rest
    else if same name manager_apk
    then apk_func s ∷ rest
    else rest

unfoldable pub resolve_managers : Scans → Config → List ManagerFunc
resolve_managers s c =
    if eqb (length c.managers) 0 then detect_managers s else named_managers s c.managers

abbrev pub is_held : Package → Bool
is_held p = same p.status status_hold_installed

unfoldable pub count_held : List Package → ℕ
count_held ps = length (keep is_held ps)

-- The metrics of one manager that have a number of packages in them.
pub record Metrics : Type 0 where
  pub manager : Text
  pub installed : ℕ
  pub held : ℕ
  pub last_scan : ℕ

unfoldable pub scanned_as : HostMeta → ℕ → ℕ → Text → Option Snapshot → Option (Snapshot × Metrics)
unfolding count_held
scanned_as host limit now name none = none
scanned_as host limit now name (some snap) =
    let (marked, reboot) = mark_kernel_packages name snap.packages host.kernel_release in
    some (
      record snap { packages = take limit marked; reboot_required = reboot },
      record {
        manager = name;
        installed = length marked;
        held = count_held (take limit marked);
        last_scan = now;
      },
    )

abbrev pub scan_manager : HostMeta → ℕ → ℕ → ManagerFunc → Option (Snapshot × Metrics)
scan_manager host limit now m = scanned_as host limit now m.name m.scan

abbrev pub inventory_kind_packages : Text
inventory_kind_packages = codes "packages"

abbrev pub payload_of : HostMeta → ℕ → Snapshot → Payload
payload_of host now s = record {
  kind = inventory_kind_packages;
  scanned_at = now;
  host = record host { package_manager = s.manager; reboot_required = s.reboot_required };
  snapshot = s;
}

unfoldable pub build_pending_payloads : HostMeta → List Snapshot → ℕ → Bool → List Payload
build_pending_payloads host snaps now push_enabled =
    if push_enabled then map (payload_of host now) snaps else []

pub record Collector : Type 0 where
  pub cfg : Config
  pub cache : List Metrics
  pub scanned : Bool
  pub pending : List Payload
  pub last_push_unix : List (Text × ℕ)  -- the last entry of a kind counts
  pub scan_err_count : Text → ℕ

pub record Found : Type 0 where
  pub snapshots : List Snapshot
  pub metrics : List Metrics
  pub failed : List Text

abbrev pub add_scan : Text → Option (Snapshot × Metrics) → Found → Found
add_scan name none found = record found { failed = name ∷ found.failed }
add_scan name (some (s, m)) found = record found {
  snapshots = s ∷ found.snapshots;
  metrics = m ∷ found.metrics;
}

unfoldable pub scan_all : HostMeta → ℕ → ℕ → List ManagerFunc → Found
unfolding scanned_as
scan_all host limit now [] = record { snapshots = []; metrics = []; failed = [] }
scan_all host limit now (m ∷ ms) =
    add_scan m.name (scan_manager host limit now m) (scan_all host limit now ms)

abbrev pub bump : List Text → (Text → ℕ) → Text → ℕ
bump [] count name = count name
bump (n ∷ ns) count name = bump ns count name + (if same n name then 1 else 0)

-- A whole scan, whose context is not cancelled.
unfoldable pub scan : HostMeta → ℕ → Scans → Collector → Collector
unfolding scan_all build_pending_payloads resolve_managers
scan host now s c =
    let found = scan_all host (max_packages_or_default c.cfg) now (resolve_managers s c.cfg) in
    record c {
      cache = found.metrics;
      pending = build_pending_payloads host found.snapshots now (not c.cfg.disable_push);
      scanned = true;
      scan_err_count = bump found.failed c.scan_err_count;
    }

-- Inventory
abbrev pub drain : Collector → List Payload × Collector
drain c = (c.pending, record c { pending = [] })

abbrev pub on_inventory_pushed : ℕ → Text → Collector → Collector
on_inventory_pushed now kind c = record c { last_push_unix = (kind, now) ∷ c.last_push_unix }
