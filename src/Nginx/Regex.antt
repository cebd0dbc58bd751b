-- ===== src/Nginx/Regex.antt =====
-- Go's regexp on bytes, as far as internal/topsrv/nginx/log.go uses it: the matches at a place in the
-- order in which a leftmost-first, greedy search prefers them, and ReplaceAllString.
pub mod Suffix
use topsrv.Base.{
  ◌-◌, take, some, none, ◌++◌, eqb, zero, if◌then◌else◌, Option, [], ◌∷◌, length, suc, List, Text,
  Bool, ℕ,
}

pub data Re : Type 0 where
  empty at_end : Re
  byte : (ℕ → Bool) → Re
  run : (ℕ → Bool) → ℕ → Re  -- as many bytes of a class as there are, at least n
  follow : Re → Re → Re
  either : Re → Re → Re
  plus : Re → Re

abbrev pub run_alts : (ℕ → Bool) → ℕ → Text → List Text
run_alts p zero [] = [] ∷ []
run_alts p zero (c ∷ s) =
    let rest = run_alts p 0 s in if p c then rest ++ ((c ∷ s) ∷ []) else (c ∷ s) ∷ []
run_alts p (suc n) [] = []
run_alts p (suc n) (c ∷ s) = let rest = run_alts p n s in if p c then rest else []

abbrev pub flat_map : (Text → List Text) → List Text → List Text
flat_map f [] = []
flat_map f (t ∷ ts) = f t ++ flat_map f ts

-- The fuel is the length of the text: each round takes a byte.
abbrev pub plus_alts : (Text → List Text) → ℕ → Text → List Text
plus_alts f zero s = []
plus_alts f (suc n) s = flat_map (λ t. plus_alts f n t ++ (t ∷ [])) (f s)

-- What may be left behind a match that starts here, the preferred one first.
unfoldable pub alts : Re → Text → List Text
alts empty s = s ∷ []
alts at_end [] = [] ∷ []
alts at_end (c ∷ s) = []
alts (byte p) [] = []
alts (byte p) (c ∷ s) = if p c then s ∷ [] else []
alts (run p n) s = run_alts p n s
alts (follow a b) s = flat_map (alts b) (alts a s)
alts (either a b) s = alts a s ++ alts b s
alts (plus a) s = plus_alts (alts a) (length s) s

abbrev pub first_of : List Text → Option Text
first_of [] = none
first_of (t ∷ ts) = some t

-- A match is replaced by what `f` makes of it, and the search goes on behind it. No expression here
-- matches the empty text.
unfoldable pub replace_from : Re → (Text → Text) → ℕ → Text → Text
unfolding alts
replace_from re f zero s = s
replace_from re f (suc n) [] = []
replace_from re f (suc n) (c ∷ s) = elim (first_of (alts re (c ∷ s))) [
  | none ↦ c ∷ replace_from re f n s
  | some rest ↦ f (take (length (c ∷ s) - length rest) (c ∷ s)) ++ replace_from re f n rest
]

unfoldable pub replace_all : Re → (Text → Text) → Text → Text
unfolding replace_from
replace_all re f s = replace_from re f (length s) s

abbrev pub literal : Text → Re
literal [] = empty
literal (c ∷ s) = follow (byte (eqb c)) (literal s)

abbrev pub exactly : (ℕ → Bool) → ℕ → Re
exactly p zero = empty
exactly p (suc n) = follow (byte p) (exactly p n)
