-- ===== src/Packages/Marks.antt =====
-- Kernel packages beside the running kernel, internal/topsrv/packages/kernel.go.
pub mod Running
use topsrv.Base.{
  leb, ◌&&◌, has_prefix, is_empty, eqb, not, same, ◌||◌, ◌++◌, none, cut, is_digit, ◌∷◌, codes,
  if◌then◌else◌, [], some, false, Bool, true, Text, Option, List, ℕ,
}
use topsrv.Packages.Kernel.{KernelState, none_of, active, old, pending, compare_kernel}
use topsrv.Packages.SourceRpm.{trim_suffix, cut_last}
use topsrv.Packages.Snapshot.{Package, manager_dpkg, manager_rpm, manager_apk}

-- The longest run of bytes of a kind, and the rest.
unfoldable pub span : (ℕ → Bool) → Text → Text × Text
span p [] = ([], [])
span p (c ∷ s) = let (run, rest) = span p s in if p c then (c ∷ run, rest) else ([], c ∷ s)

-- (?:-|$)
abbrev ends : Text → Bool
ends [] = true
ends (c ∷ s) = eqb c b'-'

-- [0-9a-z.]
abbrev is_tag : ℕ → Bool
is_tag c = is_digit c || (leb b'a' c && leb c b'z') || eqb c b'.'

abbrev suffix_run : (ℕ → Bool) → ℕ → Text → Text → Option Text
suffix_run p sep before s =
    let (run, rest) = span p s in
    if not (is_empty run) && ends rest then some (before ++ (sep ∷ run)) else none

-- (?:-\d+|\+[0-9a-z.]+)(?:-|$) behind what was read
unfoldable pub abi_end : Text → Text → Option Text
unfolding span
abi_end before [] = none
abi_end before (c ∷ s) =
    if eqb c b'-'
    then suffix_run is_digit b'-' before s
    else if eqb c b'+'
    then suffix_run is_tag b'+' before s
    else none

-- (?:\.\d+)? and what follows: each run ends where its bytes do, so there is nothing to try again.
unfoldable pub abi_patch : Text → Text → Option Text
unfolding abi_end span
abi_patch before [] = none
abi_patch before (c ∷ s) =
    if eqb c b'.'
    then (let (run, rest) = span is_digit s in
        if is_empty run then none else abi_end (before ++ (c ∷ run)) rest)
    else abi_end before (c ∷ s)

unfoldable pub abi_minor : Text → Text → Option Text
unfolding abi_patch span
abi_minor before [] = none
abi_minor before (c ∷ s) =
    let (run, rest) = span is_digit s in
    if not (eqb c b'.') || is_empty run then none else abi_patch (before ++ (c ∷ run)) rest

-- The group of dpkgABIRe and the end of the match, from here.
unfoldable pub abi_at : Text → Option Text
unfolding abi_minor span
abi_at s = let (run, rest) = span is_digit s in if is_empty run then none else abi_minor run rest

abbrev or_else : Option Text → Option Text → Option Text
or_else none b = b
or_else (some a) b = some a

-- The first hyphen that a match follows.
unfoldable pub find_abi : Text → Option Text
unfolding abi_at
find_abi [] = none
find_abi (c ∷ s) = let rest = find_abi s in if eqb c b'-' then or_else (abi_at s) rest else rest

abbrev text_of : Option Text → Text
text_of none = []
text_of (some t) = t

unfoldable pub dpkg_kernel_abi : Text → Text
unfolding find_abi
dpkg_kernel_abi s = text_of (or_else (abi_at s) (find_abi s))

abbrev rpm_kernel_packages : List (Text × Bool)
rpm_kernel_packages =
    (codes "kernel", true)
    ∷ (codes "kernel-core", true)
    ∷ (codes "kernel-uek", true)
    ∷ (codes "kernel-uek-core", true)
    ∷ (codes "kernel-modules", false)
    ∷ (codes "kernel-modules-core", false)
    ∷ (codes "kernel-modules-extra", false)
    ∷ (codes "kernel-uek-modules", false)
    ∷ (codes "kernel-uek-modules-extra", false)
    ∷ (codes "kernel-devel", false)
    ∷ (codes "kernel-uek-devel", false)
    ∷ []

abbrev find_rpm : Text → List (Text × Bool) → Option Bool
find_rpm name [] = none
find_rpm name ((k, image) ∷ m) =
    let rest = find_rpm name m in if same k name then some image else rest

-- strings.Replace(s, "-r", "-", 1)
abbrev without_r : Text → Text
without_r s = elim (cut (codes "-r") s) [ none ↦ s | some (a, b) ↦ a ++ (b'-' ∷ b) ]

unfoldable pub classify_dpkg : Text → Text → KernelState × Bool
unfolding dpkg_kernel_abi
classify_dpkg release name =
    let abi = dpkg_kernel_abi name in
    let running = dpkg_kernel_abi release in
    if not (has_prefix (codes "linux-") name) || is_empty abi || is_empty running
    then (none_of, false)
    else (compare_kernel abi running, has_prefix (codes "linux-image-") name)

unfoldable pub classify_rpm : Text → Package → KernelState × Bool
classify_rpm release p = elim (find_rpm p.name rpm_kernel_packages) [
  | none ↦ (none_of, false)
  | some image ↦ (
    compare_kernel (p.version ++ (b'-' ∷ p.release)) (trim_suffix (b'.' ∷ p.arch) release),
    image,
  )
]

unfoldable pub classify_apk : Text → Package → KernelState × Bool
classify_apk release p = elim (cut_last b'-' release) [
  | none ↦ (none_of, false)
  | some (version, flavor) ↦
      if same p.name (codes "linux-" ++ flavor)
      then (compare_kernel (without_r p.version) version, true)
      else (none_of, false)
]

unfoldable pub classify_kernel : Text → Text → Package → KernelState × Bool
unfolding classify_dpkg classify_rpm classify_apk
classify_kernel manager release p =
    if same manager manager_dpkg
    then classify_dpkg release p.name
    else if same manager manager_rpm
    then classify_rpm release p
    else if same manager manager_apk
    then classify_apk release p
    else (none_of, false)

abbrev pub mark : KernelState → Package → Package
mark none_of p = p
mark active p = record p { is_active_kernel = true }
mark old p = record p { is_old_kernel = true }
mark pending p = p

abbrev pub is_pending : KernelState → Bool
is_pending pending = true
is_pending s = false

unfoldable pub mark_loop : Text → Text → List Package → Bool → List Package × Bool
mark_loop manager release [] reboot = ([], reboot)
mark_loop manager release (p ∷ ps) reboot =
    let (state, image) = classify_kernel manager release p in
    let (rest, reboots) = mark_loop manager release ps (reboot || (is_pending state && image)) in
    (mark state p ∷ rest, reboots)

unfoldable pub mark_kernel_packages : Text → List Package → Text → List Package × Bool
mark_kernel_packages manager ps release =
    if is_empty release then (ps, false) else mark_loop manager release ps false
