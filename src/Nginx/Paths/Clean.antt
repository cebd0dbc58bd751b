-- ===== src/Nginx/Paths/Clean.antt =====
-- No replacement of normalizePath brings back a segment that starts with a digit.
use topsrv.Base.{
  zero, inr, drop, is_digit, any, refl, inl, ◌&&◌, Bool-cases, [], not, Option-cases, ◌-◌, suc,
  arith, some, subst, ◌∷◌, ◌++◌, true, false, ◌≡◌, length, Bool, take, codes, Text, eqb, ℕ,
}
use topsrv.Nginx.Regex.{Re, byte, follow, alts, first_of, replace_from, replace_all}
use topsrv.Nginx.Regex.Suffix.{Suffix, Behind, alts-Suffix, follow-Behind, first_of-All, take-front}
use topsrv.Nginx.Paths.{const, rest_of_token, is_capital}

-- No digit behind a slash; the first argument says whether a slash stands before.
abbrev pub clean_after : Bool → Text → Bool
clean_after b [] = true
clean_after b (c ∷ s) = not (b && is_digit c) && clean_after (eqb c b'/') s

pub clean_weaken : (b : Bool) (s : Text) → clean_after b s ≡ true → clean_after false s ≡ true
clean_weaken b [] h = refl
clean_weaken b (c ∷ s) h = ground (arith, h)

pub clean_end :
    (b : Bool) (pre t : Text) → clean_after b (pre ++ t) ≡ true → clean_after false t ≡ true
clean_end b [] t h = clean_weaken b t h
clean_end b (c ∷ pre) t h = clean_end (eqb c b'/') pre t (ground (arith, h))

clean_behind :
    (b : Bool) (pre : Text) (c : ℕ) (t : Text)
    → eqb b'/' c ≡ true
    → clean_after b (pre ++ (c ∷ t)) ≡ true
    → clean_after true t ≡ true
clean_behind b [] c t e h = ground (arith, h, e)
clean_behind b (d ∷ pre) c t e h = clean_behind (eqb d b'/') pre c t e (ground (arith, h))

-- What a replacement has to keep, where X is what becomes of the rest.
abbrev pub Keeps : Re → (Text → Text) → Type 0
Keeps re f =
    (b : Bool) (s rest X : Text)
    → first_of (alts re s) ≡ some rest
    → clean_after b s ≡ true
    → ((e : Bool) → clean_after e rest ≡ true → clean_after e X ≡ true)
    → clean_after b (f (take (length s - length rest) s) ++ X) ≡ true

replace_from-clean :
    (re : Re) (f : Text → Text)
    → Keeps re f
    → (n : ℕ) (b : Bool) (s : Text) → clean_after b s ≡ true
    → clean_after b (replace_from re f n s) ≡ true
unfolding replace_from
replace_from-clean re f keeps zero b s h = h
replace_from-clean re f keeps (suc n) b [] h = refl
replace_from-clean re f keeps (suc n) b (c ∷ s) h =
    elim (Option-cases (first_of (alts re (c ∷ s)))) [
      | inl e ↦
          rw (e, replace_from)
            (let k : clean_after (eqb c b'/') s ≡ true = ground (arith, h) in
              let ih = replace_from-clean re f keeps n (eqb c b'/') s k in
              let d : not (b && is_digit c) ≡ true = ground (arith, h) in rw (d) ih)
      | inr (rest, e) ↦
          rw (e, replace_from)
            (keeps b (c ∷ s) rest (replace_from re f n rest) e h
              (λ x k. replace_from-clean re f keeps n x rest k))
    ]

pub replace_all-clean :
    (re : Re) (f : Text → Text) (s : Text)
    → Keeps re f
    → clean_after false s ≡ true
    → clean_after false (replace_all re f s) ≡ true
unfolding replace_all
replace_all-clean re f s keeps h = replace_from-clean re f keeps (length s) false s h

first-end :
    (re : Re) (b : Bool) (s rest : Text)
    → first_of (alts re s) ≡ some rest
    → clean_after b s ≡ true
    → clean_after false rest ≡ true
first-end re b s rest e h =
    let (pre, d) = first_of-All (Suffix s) (alts re s) rest (alts-Suffix re s) e in
    clean_end b pre rest (subst (λ t. clean_after b t ≡ true) d h)

-- A marker that ends in another byte than a slash.
pub Keeps-slug : (re : Re) → Keeps re (const (codes "/:slug"))
Keeps-slug re b s rest X e h k = let x = k false (first-end re b s rest e h) in ground (arith, x)

pub Keeps-number : (re : Re) → Keeps re (const (codes "_:id"))
Keeps-number re b s rest X e h k = let x = k false (first-end re b s rest e h) in ground (arith, x)

-- One that ends in a slash, for matches that end in one.
pub Keeps-slashed : (a : Re) → Keeps (follow a (byte (eqb b'/'))) (const (codes "/:slug/"))
Keeps-slashed a b s rest X e h k =
    let (pre, (c, (q, d))) =
      first_of-All (Behind (eqb b'/') s) (alts (follow a (byte (eqb b'/'))) s) rest
        (follow-Behind a (eqb b'/') s) e in
    let x = k true (clean_behind b pre c rest q (subst (λ t. clean_after b t ≡ true) d h)) in
    ground (arith, x)

clean_front :
    (b : Bool) (pre t X : Text)
    → clean_after b (pre ++ t) ≡ true
    → ((e : Bool) → clean_after e t ≡ true → clean_after e X ≡ true)
    → clean_after b (pre ++ X) ≡ true
clean_front b [] t X h k = k b h
clean_front b (c ∷ pre) t X h k =
    let d : not (b && is_digit c) ≡ true = ground (arith, h) in
    rw (d) (clean_front (eqb c b'/') pre t X (ground (arith, h)) k)

pub Keeps-token : (re : Re) → Keeps re rest_of_token
Keeps-token re b s rest X e h k =
    let (pre, d) = first_of-All (Suffix s) (alts re s) rest (alts-Suffix re s) e in
    let m : take (length s - length rest) s ≡ pre = rw d (take-front pre rest) in
    let h' : clean_after b (pre ++ rest) ≡ true = subst (λ t. clean_after b t ≡ true) d h in
    let x = k false (clean_end b pre rest h') in
    rw m (elim (Bool-cases (any is_capital (drop 1 pre))) [
      | inl t ↦ rw t (ground (arith, x))
      | inr t ↦ rw t (clean_front b pre rest X h' k)
    ])
