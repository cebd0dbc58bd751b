-- ===== src/Packages/Host.antt =====
-- Facts of the host, internal/topsrv/packages/osinfo.go, and its managers, manager.go.
use topsrv.Base.{
  trim_space, ◌*◌, scan_lines, words, some, codes, none, ◌++◌, same, eqb, false, cut_at, [],
  reverse_onto, ◌∷◌, if◌then◌else◌, List, Text,
}
use topsrv.Packages.Snapshot.{HostMeta, Files}

-- strings.Trim(v, `"`)
unfoldable pub drop_quotes : Text → Text
drop_quotes [] = []
drop_quotes (c ∷ s) = let rest = drop_quotes s in if eqb c b'"' then rest else c ∷ s

abbrev trim_quotes : Text → Text
trim_quotes s = reverse_onto (drop_quotes (reverse_onto (drop_quotes s) [])) []

abbrev set_field : Text → Text → HostMeta → HostMeta
set_field k v h =
    if same k (codes "ID")
    then record h { os_id = v }
    else if same k (codes "VERSION_ID")
    then record h { os_version_id = v }
    else if same k (codes "VERSION_CODENAME")
    then record h { os_version_codename = v }
    else if same k (codes "ID_LIKE")
    then record h { os_id_like = words v }
    else if same k (codes "PRETTY_NAME")
    then record h { os_pretty_name = v }
    else h

unfoldable pub read_lines : List Text → HostMeta → HostMeta
read_lines [] h = h
read_lines (l ∷ ls) h =
    read_lines ls (elim (cut_at b'=' l) [ none ↦ h | some (k, v) ↦ set_field k (trim_quotes v) h ])

-- `goarch` is runtime.GOARCH.
unfoldable pub detect_host : Text → Files → Text → HostMeta
detect_host goarch files root =
    let h : HostMeta = record {
      os_id = [];
      os_version_id = [];
      os_version_codename = [];
      os_id_like = [];
      os_pretty_name = [];
      kernel_release = [];
      kernel_arch = goarch;
      package_manager = [];
      reboot_required = false;
    } in
    let named : HostMeta = elim (files (root ++ codes "/etc/os-release")) [
      | none ↦ h
      | some s ↦ read_lines (scan_lines (64 * 1024) s).0 h
    ] in
    elim (files (root ++ codes "/proc/sys/kernel/osrelease")) [
      | none ↦ named
      | some s ↦ record named { kernel_release = trim_space s }
    ]
