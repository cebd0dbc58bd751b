-- ===== src/Packages/Kernel/Order.antt =====
-- compareKernel is a total order of the runs of digits and letters.
use topsrv.Base.{
  ◌∙◌, subst, ◌≢◌, ◌≡◌, ◌⊎◌, ◌↔◌, true, false, List, [], ◌∷◌, Text, ℤ, pos, negsuc, refl, sym, ap,
  arith, inl, inr, Bool-cases,
}
use topsrv.Packages.Kernel.{
  KernelState, active, old, pending, none_of, version_runs, ltb_ℤ, compare_runs, compare_kernel,
}

abbrev pub flip : KernelState → KernelState
flip old = pending
flip pending = old
flip active = active
flip none_of = none_of

ltb_ℤ_asym : (a b : ℤ) → ltb_ℤ a b ≡ true → ltb_ℤ b a ≡ false
ltb_ℤ_asym a b h = ground arith

ltb_ℤ_total : (a b : ℤ) → ltb_ℤ a b ≡ false → ltb_ℤ b a ≡ false → a ≡ b
ltb_ℤ_total (pos a) (pos b) h k = ap (λ n. pos n) (ground arith)
ltb_ℤ_total (pos a) (negsuc b) h k = absurd (ground arith)
ltb_ℤ_total (negsuc a) (pos b) h k = absurd (ground arith)
ltb_ℤ_total (negsuc a) (negsuc b) h k = ap (λ n. negsuc n) (ground arith)

ltb_ℤ_irrefl : (a : ℤ) → ltb_ℤ a a ≡ false
ltb_ℤ_irrefl a = ground arith

ltb_ℤ_trans : (a b c : ℤ) → ltb_ℤ a b ≡ true → ltb_ℤ b c ≡ true → ltb_ℤ a c ≡ true
ltb_ℤ_trans a b c h k = ground arith

compare_runs-flip : (xs ys : List ℤ) → compare_runs ys xs ≡ flip (compare_runs xs ys)
unfolding compare_runs
compare_runs-flip [] [] = refl
compare_runs-flip [] (y ∷ ys) = refl
compare_runs-flip (x ∷ xs) [] = refl
compare_runs-flip (x ∷ xs) (y ∷ ys) = elim (Bool-cases (ltb_ℤ x y)) [
  | inl t ↦ rw (t, ltb_ℤ_asym x y t) refl
  | inr t ↦ elim (Bool-cases (ltb_ℤ y x)) [
    | inl u ↦ rw (t, u) refl
    | inr u ↦ rw (t, u) (compare_runs-flip xs ys)
  ]
]

compare_runs_eq : (xs ys : List ℤ) → compare_runs xs ys ≡ active → xs ≡ ys
unfolding compare_runs
compare_runs_eq [] [] h = refl
compare_runs_eq [] (y ∷ ys) h = absurd (ground arith)
compare_runs_eq (x ∷ xs) [] h = absurd (ground arith)
compare_runs_eq (x ∷ xs) (y ∷ ys) h = elim (Bool-cases (ltb_ℤ x y)) [
  | inl t ↦ absurd (ground arith)
  | inr t ↦ elim (Bool-cases (ltb_ℤ y x)) [
    | inl u ↦ absurd (ground arith)
    | inr u ↦
        (let same = ltb_ℤ_total x y t u in
          let rest = compare_runs_eq xs ys (ground arith) in λ i. same i ∷ rest i)
  ]
]

compare_runs_refl : (xs : List ℤ) → compare_runs xs xs ≡ active
unfolding compare_runs
compare_runs_refl [] = refl
compare_runs_refl (x ∷ xs) = rw (ltb_ℤ_irrefl x) (compare_runs_refl xs)

-- What makes one list of runs older than another with the same number of runs read.
old_cases :
    (x y : ℤ) (xs ys : List ℤ)
    → compare_runs (x ∷ xs) (y ∷ ys) ≡ old
    → (ltb_ℤ x y ≡ true) ⊎ ((x ≡ y) × (compare_runs xs ys ≡ old))
unfolding compare_runs
old_cases x y xs ys h = elim (Bool-cases (ltb_ℤ x y)) [
  | inl t ↦ inl t
  | inr t ↦ elim (Bool-cases (ltb_ℤ y x)) [
    | inl u ↦ absurd (ground arith)
    | inr u ↦ inr (ltb_ℤ_total x y t u, ground arith)
  ]
]

old_first : (x y : ℤ) (xs ys : List ℤ) → ltb_ℤ x y ≡ true → compare_runs (x ∷ xs) (y ∷ ys) ≡ old
unfolding compare_runs
old_first x y xs ys h = rw h refl

old_rest :
    (x : ℤ) (xs ys : List ℤ) → compare_runs xs ys ≡ old → compare_runs (x ∷ xs) (x ∷ ys) ≡ old
unfolding compare_runs
old_rest x xs ys h = rw (ltb_ℤ_irrefl x) h

compare_runs_trans :
    (xs ys zs : List ℤ)
    → compare_runs xs ys ≡ old
    → compare_runs ys zs ≡ old
    → compare_runs xs zs ≡ old
compare_runs_trans [] [] zs h k = unfold compare_runs in absurd (ground arith)
compare_runs_trans [] (y ∷ ys) [] h k = unfold compare_runs in absurd (ground arith)
compare_runs_trans [] (y ∷ ys) (z ∷ zs) h k = unfold compare_runs in refl
compare_runs_trans (x ∷ xs) [] zs h k = unfold compare_runs in absurd (ground arith)
compare_runs_trans (x ∷ xs) (y ∷ ys) [] h k = unfold compare_runs in absurd (ground arith)
compare_runs_trans (x ∷ xs) (y ∷ ys) (z ∷ zs) h k = elim (old_cases x y xs ys h) [
  | inl t ↦ elim (old_cases y z ys zs k) [
    | inl u ↦ old_first x z xs zs (ltb_ℤ_trans x y z t u)
    | inr (e, r) ↦ old_first x z xs zs (subst (λ w. ltb_ℤ x w ≡ true) e t)
  ]
  | inr (e, r) ↦ elim (old_cases y z ys zs k) [
    | inl u ↦ old_first x z xs zs (subst (λ w. ltb_ℤ w z ≡ true) (sym e) u)
    | inr (e2, r2) ↦
        subst (λ w. compare_runs (x ∷ xs) (w ∷ zs) ≡ old) (e ∙ e2)
          (old_rest x xs zs (compare_runs_trans xs ys zs r r2))
  ]
]

compare_runs_some : (xs ys : List ℤ) → compare_runs xs ys ≢ none_of
unfolding compare_runs
compare_runs_some [] [] h = ground arith
compare_runs_some [] (y ∷ ys) h = ground arith
compare_runs_some (x ∷ xs) [] h = ground arith
compare_runs_some (x ∷ xs) (y ∷ ys) h = compare_runs_some xs ys (ground arith)

-- compareKernel is total on releases: active exactly for the same runs, and old and pending turn into
-- each other when the two are exchanged.
pub compare_kernel_total :
    (a b : Text)
    → ((compare_kernel a b ≡ active) ↔ (version_runs a ≡ version_runs b))
      × (compare_kernel b a ≡ flip (compare_kernel a b))
      × (compare_kernel a b ≢ none_of)
unfolding compare_kernel
compare_kernel_total a b = (
  (
    compare_runs_eq (version_runs a) (version_runs b),
    λ e.
        subst (λ r. compare_runs (version_runs a) r ≡ active) e
          (compare_runs_refl (version_runs a)),
  ),
  compare_runs-flip (version_runs a) (version_runs b),
  compare_runs_some (version_runs a) (version_runs b),
)

-- What is older than an older release is older.
pub compare_kernel_trans :
    (a b c : Text) → compare_kernel a b ≡ old → compare_kernel b c ≡ old → compare_kernel a c ≡ old
unfolding compare_kernel
compare_kernel_trans a b c h k =
    compare_runs_trans (version_runs a) (version_runs b) (version_runs c) h k
