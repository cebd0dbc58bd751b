-- ===== src/Smart.antt =====
-- The bytes that a drive has written, internal/topsrv/smart/writes.go, and the size of its sectors
-- from smart_linux.go.
pub mod Writes
mod Tests
use topsrv.Base.{
  ◌-◌, ℕ, Text, Bool, true, false, Option, some, none, List, [], ◌∷◌, codes, same, sort, eqb, ltb,
  if◌then◌else◌, ◌*◌, ◌/◌, ◌%◌, ◌^◌, parse_uint_below, trim_space,
}

abbrev pub default_sector_size : ℕ
default_sector_size = 512

pub record HostWriteAttr : Type 0 where
  pub id : ℕ
  pub name : Text
  pub value_raw : ℕ

-- The bytes of one unit; a sector's, where it is one.
pub record WriteUnit : Type 0 where
  pub bytes : ℕ
  pub per_sector : Bool

abbrev sectors : WriteUnit
sectors = record { bytes = 0; per_sector = true }

abbrev bytes_of : ℕ → WriteUnit
bytes_of n = record { bytes = n; per_sector = false }

abbrev pub host_write_attrs : List (Text × WriteUnit)
host_write_attrs =
    (codes "Total_LBAs_Written", sectors)
    ∷ (codes "Sectors_Written_to_SSD", sectors)
    ∷ (codes "Host_Writes_GiB", bytes_of (2 ^ 30))
    ∷ (codes "Total_Writes_GiB", bytes_of (2 ^ 30))
    ∷ (codes "Lifetime_Writes_GiB", bytes_of (2 ^ 30))
    ∷ (codes "Host_Writes_32MiB", bytes_of (32 * 2 ^ 20))
    ∷ (codes "Host_Writes_MiB", bytes_of (2 ^ 20))
    ∷ []

unfoldable pub find_unit : Text → List (Text × WriteUnit) → Option WriteUnit
find_unit name [] = none
find_unit name ((k, u) ∷ us) = let rest = find_unit name us in if same k name then some u else rest

abbrev pub unit_size : ℕ → WriteUnit → ℕ
unit_size sector u = if u.per_sector then sector else u.bytes

-- The product wraps around at 2^64.
unfoldable pub scaled : ℕ → ℕ → Option ℕ
scaled size raw =
    if eqb raw 0
    then none
    else if ltb ((2 ^ 64 - 1) / size) raw
    then none
    else some (raw * size % 2 ^ 64)

abbrev pub written_by : ℕ → HostWriteAttr → Option WriteUnit → Option ℕ
written_by sector a none = none
written_by sector a (some u) = scaled (unit_size sector u) a.value_raw

abbrev pub or_next : Option ℕ → Option ℕ → Option ℕ
or_next (some n) next = some n
or_next none next = next

unfoldable pub first_written : ℕ → List HostWriteAttr → Option ℕ
unfolding find_unit scaled
first_written sector [] = none
first_written sector (a ∷ more) =
    or_next (written_by sector a (find_unit a.name host_write_attrs)) (first_written sector more)

abbrev pub by_id : HostWriteAttr → HostWriteAttr → Bool
by_id a b = ltb a.id b.id

abbrev pub sector_or_default : ℕ → ℕ
sector_or_default n = if eqb n 0 then default_sector_size else n

unfoldable pub host_bytes_written : List HostWriteAttr → ℕ → Option ℕ
unfolding first_written sort
host_bytes_written attrs sector_size =
    first_written (sector_or_default sector_size) (sort by_id attrs)

abbrev pub parsed_size : Option ℕ → ℕ
parsed_size none = default_sector_size
parsed_size (some n) = sector_or_default n

-- `file` is the content of /sys/block/<device>/queue/logical_block_size.
unfoldable pub logical_sector_size : Option Text → ℕ
unfolding parse_uint_below trim_space
logical_sector_size none = default_sector_size
logical_sector_size (some content) = parsed_size (parse_uint_below (2 ^ 64) (trim_space content))
