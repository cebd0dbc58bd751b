-- ===== src/Base/Paths.antt =====
-- path/filepath on slash-separated paths: Clean and Join of two elements.
use Prim.Native.Nat.{ℕ, ◌<◌}
use mathlib.Core.Path.{sym, ◌≡◌, refl, ap, ◌∙◌}
use mathlib.Core.Bool.{Bool, true, false, ◌||◌}
use mathlib.Core.List.{List, [], ◌∷◌, ◌++◌, append_assoc}
use mathlib.Core.Logic.{inl, inr}
use native.Mathlib.Omega.{arith}
use topsrv.Base.Tests.{if◌then◌else◌, Bool-cases, eqb}
use topsrv.Base.Lists.{length}
use topsrv.Base.Strings.{push, Text, codes, same, split, is_empty, lacks}

unfoldable pub is_abs : Text → Bool
is_abs [] = false
is_abs (c ∷ s) = eqb c b'/'

-- A `..`: the last segment goes; at the root nothing does.
unfoldable parent : Bool → List Text → List Text
parent rooted [] = if rooted then [] else codes ".." ∷ []
parent rooted (t ∷ out) = if same t (codes "..") then codes ".." ∷ t ∷ out else out

unfoldable clean_step : Bool → List Text → Text → List Text
unfolding parent same
clean_step rooted out s =
    if is_empty s || same s (codes ".")
    then out
    else if same s (codes "..")
    then parent rooted out
    else s ∷ out

-- The segments that stay, the last first.
unfoldable clean_onto : Bool → List Text → List Text → List Text
unfolding clean_step
clean_onto rooted out [] = out
clean_onto rooted out (s ∷ ss) = clean_onto rooted (clean_step rooted out s) ss

unfoldable slashed : List Text → Text
slashed [] = []
slashed (s ∷ []) = s
slashed (s ∷ t ∷ out) = slashed (t ∷ out) ++ (b'/' ∷ s)

unfoldable shown : Bool → List Text → Text
unfolding slashed
shown true out = b'/' ∷ slashed out
shown false [] = codes "."
shown false (s ∷ out) = slashed (s ∷ out)

unfoldable pub clean : Text → Text
unfolding shown clean_onto split is_abs
clean s = shown (is_abs s) (clean_onto (is_abs s) [] (split b'/' s))

-- Join of two elements that are not empty.
unfoldable pub join : Text → Text → Text
unfolding clean
join a b = clean (a ++ (b'/' ∷ b))

-- A segment that Clean leaves as it is.
abbrev pub IsSegment : Text → Type 0
IsSegment s =
    (is_empty s || same s (codes ".") ≡ false)
    × (same s (codes "..") ≡ false)
    × (lacks b'/' s ≡ true)

length-push : (d : ℕ) (xs : List Text) → 0 < length (push d xs)
unfolding push
length-push d [] = omega arith
length-push d (x ∷ xs) = omega arith

push-append : (d : ℕ) (xs ys : List Text) → 0 < length xs → push d (xs ++ ys) ≡ push d xs ++ ys
unfolding push
push-append d [] ys h = absurd (omega (arith, h))
push-append d (x ∷ xs) ys h = refl

length-split-pos : (c : ℕ) (s : Text) → 0 < length (split c s)
unfolding split push
length-split-pos c [] = omega arith
length-split-pos c (d ∷ s) = elim (Bool-cases (eqb d c)) [
  | inl e ↦ rw e (omega arith)
  | inr e ↦ rw e (length-push d (split c s))
]

split-lacks : (c : ℕ) (b : Text) → lacks c b ≡ true → split c b ≡ b ∷ []
unfolding split push
split-lacks c [] h = refl
split-lacks c (d ∷ b) h = elim (Bool-cases (eqb d c)) [
  | inl e ↦ absurd (ground (arith, e, h))
  | inr e ↦ rw (e, split-lacks c b (ground (arith, e, h))) refl
]

split-last :
    (c : ℕ) (a b : Text) → lacks c b ≡ true → split c (a ++ (c ∷ b)) ≡ split c a ++ (b ∷ [])
unfolding split
split-last c [] b h = let e : eqb c c ≡ true = ground arith in rw (e, split-lacks c b h) refl
split-last c (d ∷ a) b h = elim (Bool-cases (eqb d c)) [
  | inl e ↦ rw (e, split-last c a b h) refl
  | inr e ↦ rw (e, split-last c a b h) (push-append d (split c a) (b ∷ []) (length-split-pos c a))
]

clean_onto-last :
    (rooted : Bool) (out ss : List Text) (b : Text)
    → clean_onto rooted out (ss ++ (b ∷ [])) ≡ clean_step rooted (clean_onto rooted out ss) b
unfolding clean_onto
clean_onto-last rooted out [] b = refl
clean_onto-last rooted out (s ∷ ss) b = clean_onto-last rooted (clean_step rooted out s) ss b

clean_step-segment :
    (rooted : Bool) (out : List Text) (b : Text) → IsSegment b → clean_step rooted out b ≡ b ∷ out
unfolding clean_step
clean_step-segment rooted out b (h, k, l) = rw (h, k) refl

slashed-last : (b : Text) (out : List Text) → (t : Text) × (slashed (b ∷ out) ≡ t ++ b)
unfolding slashed
slashed-last b [] = ([], refl)
slashed-last b (s ∷ out) =
    (slashed (s ∷ out) ++ (b'/' ∷ []), sym (append_assoc (slashed (s ∷ out)) (b'/' ∷ []) b))

shown-last :
    (rooted : Bool) (b : Text) (out : List Text) → (t : Text) × (shown rooted (b ∷ out) ≡ t ++ b)
unfolding shown
shown-last true b out = let (t, e) = slashed-last b out in (b'/' ∷ t, ap (λ s. b'/' ∷ s) e)
shown-last false b out = slashed-last b out

-- What is joined to a directory stands at the end of the path.
pub join-last : (a b : Text) → IsSegment b → (t : Text) × (join a b ≡ t ++ b)
unfolding join clean
join-last a b (h, k, l) =
    let p = a ++ (b'/' ∷ b) in
    let out = clean_onto (is_abs p) [] (split b'/' a) in
    let e : clean_onto (is_abs p) [] (split b'/' p) ≡ b ∷ out =
      ap (clean_onto (is_abs p) []) (split-last b'/' a b l)
      ∙ clean_onto-last (is_abs p) [] (split b'/' a) b
      ∙ clean_step-segment (is_abs p) out b (h, k, l) in
    let (t, f) = shown-last (is_abs p) b out in (t, ap (shown (is_abs p)) e ∙ f)
