-- ===== src/Packages/Snapshot.antt =====
-- The records of internal/topsrv/packages/inventory.go.
use topsrv.Base.{true, some, pos, ◌∷◌, ℤ, false, Option, none, ◌++◌, Bool, List, codes, [], Text, ℕ}

abbrev pub manager_dpkg : Text
manager_dpkg = codes "dpkg"

abbrev pub manager_rpm : Text
manager_rpm = codes "rpm"

abbrev pub manager_apk : Text
manager_apk = codes "apk"

abbrev pub status_installed : Text
status_installed = codes "install ok installed"

abbrev pub status_hold_installed : Text
status_hold_installed = codes "hold ok installed"

abbrev pub status_generic : Text
status_generic = codes "installed"

-- *int is an option.
pub record Package : Type 0 where
  pub name : Text
  pub version : Text
  pub release : Text
  pub epoch : Option ℤ
  pub arch : Text
  pub status : Text
  pub source_name : Text
  pub source_version : Text
  pub modularity_label : Text
  pub vendor : Text
  pub gpg_key_id : Text
  pub sig_digest : Text
  pub sig_algorithm : Text
  pub auto_installed : Bool
  pub repo_origin : Text
  pub is_active_kernel : Bool
  pub is_old_kernel : Bool
  pub install_time : ℤ
  pub installed_size : ℤ
  pub licenses : List Text
  pub section : Text
  pub priority : Text
  pub homepage : Text
  pub git_commit : Text

-- The zero value.
abbrev pub no_package : Package
no_package = record {
  name = [];
  version = [];
  release = [];
  epoch = none;
  arch = [];
  status = [];
  source_name = [];
  source_version = [];
  modularity_label = [];
  vendor = [];
  gpg_key_id = [];
  sig_digest = [];
  sig_algorithm = [];
  auto_installed = false;
  repo_origin = [];
  is_active_kernel = false;
  is_old_kernel = false;
  install_time = pos 0;
  installed_size = pos 0;
  licenses = [];
  section = [];
  priority = [];
  homepage = [];
  git_commit = [];
}

pub record HostMeta : Type 0 where
  pub os_id : Text
  pub os_version_id : Text
  pub os_version_codename : Text
  pub os_id_like : List Text
  pub os_pretty_name : Text
  pub kernel_release : Text
  pub kernel_arch : Text
  pub package_manager : Text
  pub reboot_required : Bool

pub record Snapshot : Type 0 where
  pub manager : Text
  pub packages : List Package
  pub reboot_required : Bool

pub record Payload : Type 0 where
  pub kind : Text
  pub scanned_at : ℕ
  pub host : HostMeta
  pub snapshot : Snapshot

-- The files of the system by path; none where Open or Stat fails.
abbrev pub Files : Type 0
Files = Text → Option Text

abbrev pub file_exists : Files → Text → Bool
file_exists files path = elim (files path) [ none ↦ false | some s ↦ true ]

-- name + "/" + arch
abbrev pub by_arch : Text → Text → Text
by_arch name arch = name ++ (b'/' ∷ arch)
