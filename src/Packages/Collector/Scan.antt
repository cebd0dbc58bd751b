-- ===== src/Packages/Collector/Scan.antt =====
-- What a scan leaves: the payloads within the limit, and each manager accounted for.
use topsrv.Base.{All, ◌≡◌, Text, ◌+◌, none, some, ◌≤◌, List, length, Option, ℕ}
use topsrv.Packages.Snapshot.{HostMeta, Snapshot, Payload}
use topsrv.Packages.Collector.{Collector, ManagerFunc, Metrics, inventory_kind_packages, bump}

abbrev pub Within : ℕ → Snapshot → Type 0
Within limit s = length s.packages ≤ limit

-- Of the packages that are counted as installed, only those within the limit are counted as held.
abbrev pub Counted : ℕ → Metrics → Type 0
Counted limit m = (m.held ≤ m.installed) × (m.held ≤ limit)

abbrev Sound : ℕ → Option (Snapshot × Metrics) → Type 0
Sound limit none = Unit
Sound limit (some (s, m)) = Within limit s × Counted limit m

-- The payload of a snapshot within the limit.
abbrev pub IsPayload : HostMeta → ℕ → ℕ → Payload → Type 0
IsPayload host limit now p =
    (p.kind ≡ inventory_kind_packages)
    × (p.scanned_at ≡ now)
    × (p.host.kernel_release ≡ host.kernel_release)
    × (p.host.package_manager ≡ p.snapshot.manager)
    × (length p.snapshot.packages ≤ limit)

-- What a scan leaves in the collector, and the names of the managers that failed.
abbrev pub Scanned : HostMeta → ℕ → ℕ → List ManagerFunc → Collector → Collector → Type 0
Scanned host limit now ms c c' =
    All (IsPayload host limit now) c'.pending
    × All (Counted limit) c'.cache
    × ((failed : List Text) × (length c'.pending + length failed ≡ length ms)
        × (c'.scan_err_count ≡ bump failed c.scan_err_count))
