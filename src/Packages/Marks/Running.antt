-- ===== src/Packages/Marks/Running.antt =====
-- The packages of the running kernel are recognised, and marking changes nothing but the marks.
use topsrv.Base.{
  [], arith, refl, ◌++◌, true, ◌∷◌, false, is_empty, ◌&&◌, codes, ◌≡◌, has_prefix, ℤ, List, same,
  Bool, Text,
}
use topsrv.Packages.Kernel.{KernelState, active, compare_kernel, compare_runs, version_runs, ltb_ℤ}
use topsrv.Packages.Snapshot.{Package, manager_dpkg}
use topsrv.Packages.Marks.{
  span, abi_at, find_abi, dpkg_kernel_abi, classify_dpkg, classify_kernel, is_pending,
}

abbrev pub image_name : Text → Text
image_name release = codes "linux-image-" ++ release

dpkg_kernel_abi-image :
    (release : Text) → dpkg_kernel_abi (image_name release) ≡ dpkg_kernel_abi release
unfolding dpkg_kernel_abi find_abi abi_at span
dpkg_kernel_abi-image release = refl

ltb_ℤ_irrefl : (x : ℤ) → ltb_ℤ x x ≡ false
ltb_ℤ_irrefl x = ground arith

compare_runs_refl : (xs : List ℤ) → compare_runs xs xs ≡ active
unfolding compare_runs
compare_runs_refl [] = refl
compare_runs_refl (x ∷ xs) = rw (ltb_ℤ_irrefl x) (compare_runs_refl xs)

compare_kernel_refl : (r : Text) → compare_kernel r r ≡ active
unfolding compare_kernel
compare_kernel_refl r = compare_runs_refl (version_runs r)

-- The dpkg image of the running kernel is taken for active, whatever the release is in which an ABI
-- is found.
pub running_image_active :
    (release : Text) (p : Package)
    → p.name ≡ image_name release
    → is_empty (dpkg_kernel_abi release) ≡ false
    → classify_kernel manager_dpkg release p ≡ (active, true)
unfolding classify_kernel classify_dpkg same has_prefix
running_image_active release p named found =
    rw (named, dpkg_kernel_abi-image release, found, compare_kernel_refl (dpkg_kernel_abi release))
      refl

abbrev pub state_of : Text → Text → Package → KernelState
state_of manager release p = (classify_kernel manager release p).0

abbrev pub waits : Text → Text → Package → Bool
waits manager release p =
    is_pending (state_of manager release p) && (classify_kernel manager release p).1
