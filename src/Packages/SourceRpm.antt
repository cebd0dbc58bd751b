-- ===== src/Packages/SourceRpm.antt =====
-- The name of a source package, internal/topsrv/packages/rpm.go: parseSrcRpm.
use topsrv.Base.{
  ℕ, ◌≡◌, Bool, true, false, not, [], ◌∷◌, ◌++◌, Option, none, some, Text, codes, same, same_eq,
  same_refl, is_empty, length, length-append, eqb, all, refl, ap, arith, inl, inr, Bool-cases,
  if◌then◌else◌,
}

-- strings.TrimSuffix(s, suffix), with the suffix first.
unfoldable pub trim_suffix : Text → Text → Text
trim_suffix suffix [] = []
trim_suffix suffix (c ∷ s) = if same (c ∷ s) suffix then [] else c ∷ trim_suffix suffix s

-- What stands before and behind the last `c`.
unfoldable pub cut_last : ℕ → Text → Option (Text × Text)
cut_last c [] = none
cut_last c (d ∷ s) = elim (cut_last c s) [
  | some (a, b) ↦ some (d ∷ a, b)
  | none ↦ if eqb d c then some ([], s) else none
]

-- An index of 0 counts as none: nothing may stand before the hyphen.
unfoldable pub parse_src_rpm : Text → Text × Text
parse_src_rpm s =
    let whole = trim_suffix (codes ".src") (trim_suffix (codes ".rpm") s) in
    if is_empty s then ([], []) else elim (cut_last b'-' whole) [
      | none ↦ (whole, [])
      | some (a, release) ↦ if is_empty a then (whole, []) else elim (cut_last b'-' a) [
        | none ↦ (whole, release)
        | some (name, version) ↦
            if is_empty name then (whole, release) else (name, version ++ b'-' ∷ release)
      ]
    ]

abbrev pub lacks_hyphen : Text → Bool
lacks_hyphen s = all (λ c. not (eqb c b'-')) s

cut_last-lacks_hyphen : (s : Text) → lacks_hyphen s ≡ true → cut_last b'-' s ≡ none
unfolding cut_last
cut_last-lacks_hyphen [] h = refl
cut_last-lacks_hyphen (c ∷ s) h = ground (arith, cut_last-lacks_hyphen s)

cut_last-append : (a b : Text) → lacks_hyphen b ≡ true → cut_last b'-' (a ++ b'-' ∷ b) ≡ some (a, b)
unfolding cut_last
cut_last-append [] b h = rw (cut_last-lacks_hyphen b h) refl
cut_last-append (c ∷ a) b h = rw (cut_last-append a b h) refl

longer-same : (c : ℕ) (a s : Text) → same (c ∷ (a ++ s)) s ≡ false
longer-same c a s = elim (Bool-cases (same (c ∷ (a ++ s)) s)) [
  | inr f ↦ f
  | inl t ↦ absurd (omega (arith, ap length (same_eq (c ∷ (a ++ s)) s t), length-append a s))
]

trim_suffix-append :
    (suffix a : Text) → is_empty suffix ≡ false → trim_suffix suffix (a ++ suffix) ≡ a
unfolding trim_suffix
trim_suffix-append [] a h = absurd (ground arith)
trim_suffix-append (c ∷ s) [] h = rw (same_refl (c ∷ s)) refl
trim_suffix-append (c ∷ s) (d ∷ a) h =
    rw (longer-same d a (c ∷ s), trim_suffix-append (c ∷ s) a h) refl

-- Where the name is not empty and neither the version nor the release holds a hyphen, the file name of
-- a source package, name-version-release.src.rpm, gives back the name, however many
-- hyphens it holds, and the version with the release.
pub parse_src_rpm_lem :
    (name version release : Text)
    → is_empty name ≡ false
    → lacks_hyphen version ≡ true
    → lacks_hyphen release ≡ true
    → parse_src_rpm ((((name ++ b'-' ∷ version) ++ b'-' ∷ release) ++ codes ".src") ++ codes ".rpm")
      ≡ (name, version ++ b'-' ∷ release)
unfolding parse_src_rpm
parse_src_rpm_lem [] version release some_name plain_version plain_release = absurd (ground arith)
parse_src_rpm_lem (c ∷ name) version release some_name plain_version plain_release =
    let front = (c ∷ name) ++ b'-' ∷ version in
    let stem = front ++ b'-' ∷ release in
    rw
      (
        trim_suffix-append (codes ".rpm") (stem ++ codes ".src") refl,
        parse_src_rpm,
        trim_suffix-append (codes ".src") stem refl,
        cut_last-append front release plain_release,
        cut_last-append (c ∷ name) version plain_version,
      )
      refl
