-- ===== src/Packages/Tests.antt =====
-- Runs of the order of kernel releases.
use topsrv.Base.{same, Text, codes, ◌≡◌, refl, atoi}
use topsrv.Packages.SourceRpm.{parse_src_rpm, trim_suffix, cut_last}
use topsrv.Packages.Kernel.{old, compare_kernel, version_runs, scan_runs, run_value}

abbrev ga : Text
ga = codes "4.18.0-553.el8_10"

abbrev update : Text
update = codes "4.18.0-553.5.1.el8_10"

abbrev next : Text
next = codes "4.18.0-554.el8_10"

ga_is_old : compare_kernel ga update ≡ old
unfolding compare_kernel version_runs scan_runs run_value atoi
ga_is_old = refl

update_is_old : compare_kernel update next ≡ old
unfolding compare_kernel version_runs scan_runs run_value atoi
update_is_old = refl

one_hyphen : parse_src_rpm (codes "name-1.src.rpm") ≡ (codes "name-1", codes "1")
unfolding parse_src_rpm trim_suffix cut_last same
one_hyphen = refl
