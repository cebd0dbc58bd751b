-- ===== src/Packages/Kernel.antt =====
-- The order of kernel releases, internal/topsrv/packages/kernel.go: versionRuns and compareKernel.
pub mod Order
use topsrv.Base.{
  ◌+◌, ℕ, ◌^◌, Bool, true, false, ◌&&◌, ◌||◌, List, [], ◌∷◌, ◌++◌, Text, ℤ, pos, negsuc, atoi,
  max_i64, is_digit, pos_part, neg_part, is_negative, ltb, eqb, leb, if◌then◌else◌,
}

-- How a kernel package relates to the running kernel.
pub data KernelState : Type 0 where
  none_of active old pending : KernelState

-- [A-Za-z]
abbrev pub is_letter : ℕ → Bool
is_letter c = (leb b'A' c && leb c b'Z') || (leb b'a' c && leb c b'z')

-- Whether the byte goes on the run.
abbrev pub goes_on : Text → ℕ → Bool
goes_on [] c = false
goes_on (d ∷ run) c = (is_digit d && is_digit c) || (is_letter d && is_letter c)

-- A letter run is -1; a digit run too long for an int is the largest int.
unfoldable pub run_value : Text → ℤ
run_value [] = negsuc 0
run_value (c ∷ s) =
    if is_digit c
    then (let (n, fits) = atoi (c ∷ s) in if fits then n else pos max_i64)
    else negsuc 0

abbrev pub add_run : Text → List ℤ → List ℤ
add_run [] out = out
add_run (c ∷ run) out = run_value (c ∷ run) ∷ out

-- The matches of versionRunRe from left to right; `run` is the one read so far.
unfoldable pub scan_runs : Text → Text → List ℤ
scan_runs [] run = add_run run []
scan_runs (c ∷ s) run =
    let more = scan_runs s (run ++ c ∷ []) in
    let fresh = scan_runs s (c ∷ []) in
    let out = scan_runs s [] in
    if goes_on run c then more else add_run run (if is_digit c || is_letter c then fresh else out)

unfoldable pub version_runs : Text → List ℤ
version_runs s = scan_runs s []

abbrev pub ltb_ℤ : ℤ → ℤ → Bool
ltb_ℤ a b = ltb (pos_part a + neg_part b) (pos_part b + neg_part a)

-- slices.Compare: 0, -1 and 1 are active, old and pending in compareKernel.
unfoldable pub compare_runs : List ℤ → List ℤ → KernelState
compare_runs [] [] = active
compare_runs [] (y ∷ ys) = old
compare_runs (x ∷ xs) [] = pending
compare_runs (x ∷ xs) (y ∷ ys) =
    let rest = compare_runs xs ys in if ltb_ℤ x y then old else if ltb_ℤ y x then pending else rest

unfoldable pub compare_kernel : Text → Text → KernelState
unfolding compare_runs
compare_kernel release running = compare_runs (version_runs release) (version_runs running)
