-- ===== src/Packages/Collector/Tests.antt =====
-- The inventory on small inputs.
use topsrv.Base.{
  arith, pos, cut_at, unlines, keep, some, false, none, has_prefix, same, Text, List, trim_space,
  refl, [], true, Option, ◌∷◌, codes, ◌≡◌,
}
use topsrv.Packages.Snapshot.{Package, no_package, HostMeta, Payload, manager_dpkg}
use topsrv.Packages.Kernel.{active}
use topsrv.Packages.Marks.{classify_kernel, dpkg_kernel_abi}
use topsrv.Packages.Marks.Running.{running_image_active, image_name}
use topsrv.Packages.Dpkg.{parse_rfc822, parse_source}
use topsrv.Packages.Dpkg.Paragraphs.{Field, parse_rfc822-print, print_records, all_entries}
use topsrv.Packages.Rpm.{Row, latest_of, entry_or, find_entry, extract_key_id}
use topsrv.Packages.Rpm.History.{latest_of_lem, last_repo, first_reason, reason_or, found, of_key}
use topsrv.Packages.Collector.{Collector, Scans, scan}
use topsrv.Packages.Collector.Api.{send_inventory_once, inventory_api}
use topsrv.Push.State as State
use topsrv.Push.Inventory.{send_inventory}

abbrev release : Text
release = codes "6.8.0-147-generic"

abbrev image : Package
image = record no_package { name = image_name release }

running_image_active_example : classify_kernel manager_dpkg release image ≡ (active, true)
unfolding topsrv.Packages.Marks.dpkg_kernel_abi
running_image_active_example = running_image_active release image refl refl

-- ABIs of the release formats that the code names.
abi_test : dpkg_kernel_abi (codes "linux-image-6.12.115+deb13.1-amd64") ≡ codes "6.12.115+deb13.1"
unfolding topsrv.Packages.Marks.dpkg_kernel_abi
abi_test = refl

no_abi_test : dpkg_kernel_abi (codes "linux-image-virtual") ≡ []
unfolding topsrv.Packages.Marks.dpkg_kernel_abi
no_abi_test = refl

abbrev paragraphs : List (List Field)
paragraphs =
    (record { key = codes "Package"; value = codes "nginx"; more = [] }
      ∷ record { key = codes "Description"; value = codes "server"; more = codes "fast" ∷ [] }
      ∷ [])
    ∷ []

parse_rfc822-print_example :
    parse_rfc822 (unlines (print_records paragraphs)) ≡ some (all_entries paragraphs)
unfolding trim_space same
parse_rfc822-print_example =
    parse_rfc822-print paragraphs
      ((((refl, refl, refl, tt), ((refl, refl, refl, (refl, tt)), tt)), (tt, ((refl, tt), tt))), tt)
      (
        (refl, refl, omega arith),
        ((refl, refl, omega arith), ((refl, refl, omega arith), ((refl, refl, omega arith), tt))),
      )

abbrev rows : List Row
rows =
    record { name = codes "vim"; arch = codes "x"; repo = codes "base"; reason = 1; action = 1 }
    ∷ record {
      name = codes "vim";
      arch = codes "x";
      repo = codes "updates";
      reason = 0;
      action = 6;
    }
    ∷ []

latest_of_lem_example : entry_or (find_entry (codes "vim/x") (latest_of rows [])) ≡ record {
  repo = last_repo (keep (of_key (codes "vim/x")) rows) [];
  initial_reason = reason_or (first_reason (keep (of_key (codes "vim/x")) rows)) 0;
  has_install = found (first_reason (keep (of_key (codes "vim/x")) rows));
}
latest_of_lem_example = latest_of_lem (codes "vim/x") rows

last_repo_test : last_repo (keep (of_key (codes "vim/x")) rows) [] ≡ codes "updates"
unfolding same
last_repo_test = refl

key_test :
    extract_key_id (codes "RSA/SHA256, Mon, Key ID 199E2f91fd431d51" ∷ [])
    ≡ codes "199e2f91fd431d51"
unfolding extract_key_id topsrv.Packages.Rpm.find_key topsrv.Packages.Rpm.hex_run has_prefix same
key_test = refl

source_test :
    parse_source (codes "openssl (1.1.1-1)") (codes "libssl") ≡ (codes "openssl", codes "1.1.1-1")
unfolding parse_source trim_space cut_at
source_test = refl

abbrev host : HostMeta
host = record {
  os_id = codes "debian";
  os_version_id = codes "13";
  os_version_codename = [];
  os_id_like = [];
  os_pretty_name = [];
  kernel_release = release;
  kernel_arch = codes "amd64";
  package_manager = [];
  reboot_required = false;
}

abbrev collector : Collector
collector = record {
  cfg = record {
    disabled = false;
    interval = [];
    managers = manager_dpkg ∷ codes "apk" ∷ [];
    check_upgrades = false;
    disable_push = false;
    max_packages = pos 1;
    parsed = 0;
  };
  cache = [];
  scanned = false;
  pending = [];
  last_push_unix = [];
  scan_err_count = λ name. 0;
}

abbrev scans : Scans
scans = record {
  files = λ path. none;
  dpkg =
      some
        (record { manager = manager_dpkg; packages = image ∷ image ∷ []; reboot_required = false });
  rpm = none;
  apk = none;
}

abbrev pusher : State.Pusher Collector
pusher = record {
  cfg = record { endpoint = []; token = []; interval = []; spool_dir = [] };
  hostname = [];
  meta_endpoint = [];
  inventory_endpoint = codes "https://c.example/v1/inventory";
  providers = scan host 7 scans collector ∷ [];
  meta_providers = [];
  files = λ d. [];
  requests = [];
}

abbrev down : State.Env
down = record {
  ok = λ op. true;
  request_ok = λ url. true;
  answer = λ n. State.no_answer;
  gathered = none;
  now = 1700000000000;
}

abbrev marshal : Payload → Option Text
marshal p = some p.kind

send_inventory_once_example :
    (send_inventory
      (inventory_api marshal 8)
      down
      (send_inventory (inventory_api marshal 8) down pusher)).requests
    ≡ (send_inventory (inventory_api marshal 8) down pusher).requests
send_inventory_once_example = send_inventory_once marshal 8 down down pusher
