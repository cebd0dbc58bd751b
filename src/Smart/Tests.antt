-- ===== src/Smart/Tests.antt =====
-- A page that names one counter twice.
use topsrv.Base.{codes, [], ◌∷◌, List, some, refl, ◌≡◌, same}
use topsrv.Smart.{HostWriteAttr, host_bytes_written, find_unit, scaled, sector_or_default}
use topsrv.Smart.Writes.{Written, host_bytes_written-Written}

abbrev page : List HostWriteAttr
page =
    record { id = 241; name = codes "Host_Writes_32MiB"; value_raw = 7 }
    ∷ record { id = 225; name = codes "Host_Writes_32MiB"; value_raw = 5 }
    ∷ record { id = 9; name = codes "Power_On_Hours"; value_raw = 3 }
    ∷ []

lowest : host_bytes_written page 0 ≡ some 167772160
unfolding host_bytes_written find_unit scaled same
lowest = refl

host_bytes_written-Written_example : Written (sector_or_default 0) page (host_bytes_written page 0)
host_bytes_written-Written_example = host_bytes_written-Written page 0
