-- ===== src/Base/Strings.antt =====
-- Go strings: lists of bytes. Equality of keys is an instance.
use Prim.Native.Nat.{ℕ}
use Prim.Native.Char.{code}
use Prim.Native.String.{String}
use mathlib.Core.Path.{◌≡◌, refl}
use mathlib.Core.Logic.{◌↔◌}
use mathlib.Core.Bool.{Bool, true, false, ◌&&◌, ◌||◌}
use mathlib.Core.List.{List, [], ◌∷◌, ◌++◌}
use mathlib.Core.Option.{Option, none, some}
use native.Mathlib.Omega.{arith}
use mathlib.Core.Logic.{inl, inr}
use topsrv.Base.Tests.{Bool-cases, eqb, ltb, eqb_iff, if◌then◌else◌}
use topsrv.Base.Lists.{length, drop}

abbrev pub Text : Type 0
Text = List ℕ

-- The code points of a literal; these are its bytes when the literal is ASCII.
abbrev pub codes : String → Text
codes String.[] = []
codes (String.◌∷◌ c s) = code c ∷ codes s

-- a == b of Go, on strings.
unfoldable pub same : Text → Text → Bool
same [] [] = true
same [] (b ∷ t) = false
same (a ∷ s) [] = false
same (a ∷ s) (b ∷ t) = eqb a b && same s t

pub same_refl : (a : Text) → same a a ≡ true
unfolding same
same_refl [] = refl
same_refl (a ∷ s) = ground (arith, same_refl s)

pub same_eq : (a b : Text) → same a b ≡ true → a ≡ b
unfolding same
same_eq [] [] h = refl
same_eq [] (b ∷ t) h = cc
same_eq (a ∷ s) [] h = cc
same_eq (a ∷ s) (b ∷ t) h = ground (arith, same_eq s t)

pub same_iff : (a b : Text) → (same a b ≡ true) ↔ (a ≡ b)
same_iff a b = (same_eq a b, λ e. rw e (same_refl b))

pub record Eq {ℓ} (K : Type ℓ) : Type ℓ where
  pub beq : K → K → Bool
  pub beq_iff : (a b : K) → (beq a b ≡ true) ↔ (a ≡ b)

instance abbrev pub nat_eq : Eq ℕ
nat_eq = record { beq = eqb; beq_iff = eqb_iff }

instance abbrev pub text_eq : Eq Text
text_eq = record { beq = same; beq_iff = same_iff }

abbrev pub is_empty : Text → Bool
is_empty [] = true
is_empty (c ∷ s) = false

-- strings.HasPrefix(s, p), with p first.
unfoldable pub has_prefix : Text → Text → Bool
has_prefix [] s = true
has_prefix (c ∷ p) [] = false
has_prefix (c ∷ p) (d ∷ s) = eqb c d && has_prefix p s

-- strings.TrimPrefix(s, p), with p first.
unfoldable pub trim_prefix : Text → Text → Text
unfolding has_prefix
trim_prefix p s = if has_prefix p s then drop (length p) s else s

-- strings.Contains(s, sub), with sub first.
unfoldable pub contains : Text → Text → Bool
unfolding has_prefix
contains sub [] = is_empty sub
contains sub (c ∷ s) = has_prefix sub (c ∷ s) || contains sub s

pub has_prefix-append : (p s : Text) → has_prefix p (p ++ s) ≡ true
unfolding has_prefix
has_prefix-append [] s = refl
has_prefix-append (c ∷ p) s = ground (arith, has_prefix-append p s)

pub contains-append : (a sub b : Text) → contains sub (a ++ (sub ++ b)) ≡ true
unfolding contains has_prefix
contains-append [] [] [] = refl
contains-append [] [] (c ∷ b) = refl
contains-append [] (c ∷ sub) b = ground (arith, has_prefix-append sub b)
contains-append (c ∷ a) sub b = ground (arith, contains-append a sub b)

grow : ℕ → Option (Text × Text) → Option (Text × Text)
grow d none = none
grow d (some (a, b)) = some (d ∷ a, b)

-- strings.Cut at one byte: what stands before the first `c`, and what stands behind it.
unfoldable pub cut_at : ℕ → Text → Option (Text × Text)
unfolding grow
cut_at c [] = none
cut_at c (d ∷ s) = if eqb d c then some ([], s) else grow d (cut_at c s)

-- strings.Cut(s, sub), with sub first: what stands before and behind the first `sub`.
unfoldable pub cut : Text → Text → Option (Text × Text)
unfolding grow has_prefix
cut sub [] = if is_empty sub then some ([], []) else none
cut sub (c ∷ s) =
    if has_prefix sub (c ∷ s) then some ([], drop (length sub) (c ∷ s)) else grow c (cut sub s)

unfoldable pub push : ℕ → List Text → List Text
push d [] = (d ∷ []) ∷ []
push d (p ∷ ps) = (d ∷ p) ∷ ps

-- strings.Split at one byte: always at least one part.
unfoldable pub split : ℕ → Text → List Text
unfolding push
split c [] = [] ∷ []
split c (d ∷ s) = if eqb d c then [] ∷ split c s else push d (split c s)

-- a < b of Go on strings: byte by byte, and a proper prefix first.
unfoldable pub text_lt : Text → Text → Bool
text_lt s [] = false
text_lt [] (b ∷ t) = true
text_lt (a ∷ s) (b ∷ t) = ltb a b || (eqb a b && text_lt s t)

pub text_lt_irrefl : (s : Text) → text_lt s s ≡ false
unfolding text_lt
text_lt_irrefl [] = refl
text_lt_irrefl (a ∷ s) = ground (arith, text_lt_irrefl s)

pub text_lt_trans : (s t u : Text) → text_lt s t ≡ true → text_lt t u ≡ true → text_lt s u ≡ true
unfolding text_lt
text_lt_trans s t [] h k = cc
text_lt_trans [] t (c ∷ u) h k = refl
text_lt_trans (a ∷ s) [] (c ∷ u) h k = cc
text_lt_trans (a ∷ s) (b ∷ t) (c ∷ u) h k = ground (arith, text_lt_trans s t u)

pub text_lt_total : (s t : Text) → text_lt s t ≡ false → text_lt t s ≡ false → s ≡ t
unfolding text_lt
text_lt_total [] [] h k = refl
text_lt_total [] (b ∷ t) h k = cc
text_lt_total (a ∷ s) [] h k = cc
text_lt_total (a ∷ s) (b ∷ t) h k = ground (arith, text_lt_total s t)

pub text_lt_asym : (s t : Text) → text_lt s t ≡ true → text_lt t s ≡ false
unfolding text_lt
text_lt_asym s [] h = cc
text_lt_asym [] (b ∷ t) h = refl
text_lt_asym (a ∷ s) (b ∷ t) h = ground (arith, text_lt_asym s t)

-- What is not after is transitive.
pub text_lt_co : (s t u : Text) → text_lt t s ≡ false → text_lt u t ≡ false → text_lt u s ≡ false
unfolding text_lt
text_lt_co [] t [] h k = refl
text_lt_co [] [] (c ∷ u) h k = refl
text_lt_co [] (b ∷ t) (c ∷ u) h k = refl
text_lt_co (a ∷ s) [] u h k = cc
text_lt_co (a ∷ s) (b ∷ t) [] h k = cc
text_lt_co (a ∷ s) (b ∷ t) (c ∷ u) h k = ground (arith, text_lt_co s t u)

has_prefix-drop : (p s : Text) → has_prefix p s ≡ true → s ≡ p ++ drop (length p) s
unfolding has_prefix
has_prefix-drop [] s h = refl
has_prefix-drop (c ∷ p) [] h = cc
has_prefix-drop (c ∷ p) (d ∷ s) h = ground (arith, has_prefix-drop p s)

-- Where TrimPrefix changes a text, the prefix stood in front of what it gives.
pub trim_prefix-append : (p s : Text) → same (trim_prefix p s) s ≡ false → s ≡ p ++ trim_prefix p s
unfolding trim_prefix
trim_prefix-append p s h = ground (arith, has_prefix-drop p s, same_refl s)

abbrev pub lacks : ℕ → Text → Bool
lacks c [] = true
lacks c (d ∷ s) = if eqb d c then false else lacks c s

pub split-append : (c : ℕ) (l s : Text) → lacks c l ≡ true → split c (l ++ (c ∷ s)) ≡ l ∷ split c s
unfolding split push
split-append c [] s h = ground arith
split-append c (d ∷ l) s h = elim (Bool-cases (eqb d c)) [
  | inl e ↦ absurd (ground (arith, e))
  | inr e ↦ rw (e, split-append c l s (ground (arith, e))) refl
]

pub cut_at-append : (c : ℕ) (a b : Text) → lacks c a ≡ true → cut_at c (a ++ (c ∷ b)) ≡ some (a, b)
unfolding cut_at grow
cut_at-append c [] b h = ground arith
cut_at-append c (d ∷ a) b h = elim (Bool-cases (eqb d c)) [
  | inl e ↦ absurd (ground (arith, e))
  | inr e ↦ rw (e, cut_at-append c a b (ground (arith, e))) refl
]
