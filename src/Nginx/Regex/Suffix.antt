-- ===== src/Nginx/Regex/Suffix.antt =====
-- What a match leaves is the end of the text.
use topsrv.Base.{
  length-append, arith, append_assoc, inr, ◌-◌, sym, inl, zero, Bool-cases, length, All-map, subst,
  ◌∙◌, refl, All-append, none, true, suc, ap, ◌++◌, some, [], ◌≡◌, ◌∷◌, All, List, Option, take,
  Text, Bool, ℕ,
}
use topsrv.Nginx.Regex.{
  Re, empty, at_end, byte, run, follow, either, plus, run_alts, flat_map, plus_alts, alts, first_of,
}

abbrev pub Suffix : Text → Text → Type 0
Suffix s t = (pre : Text) × (s ≡ pre ++ t)

Suffix-refl : (s : Text) → Suffix s s
Suffix-refl s = ([], refl)

Suffix-cons : (c : ℕ) (s t : Text) → Suffix s t → Suffix (c ∷ s) t
Suffix-cons c s t (pre, e) = (c ∷ pre, ap (λ u. c ∷ u) e)

Suffix-trans : (s t u : Text) → Suffix s t → Suffix t u → Suffix s u
Suffix-trans s t u (a, e) (b, d) = (a ++ b, e ∙ ap (λ x. a ++ x) d ∙ sym (append_assoc a b u))

Suffix-All : (s t : Text) (us : List Text) → Suffix s t → All (Suffix t) us → All (Suffix s) us
Suffix-All s t us h = All-map (Suffix t) (Suffix s) (λ u. Suffix-trans s t u h) us

run_alts-Suffix : (p : ℕ → Bool) (n : ℕ) (s : Text) → All (Suffix s) (run_alts p n s)
run_alts-Suffix p zero [] = (Suffix-refl [], tt)
run_alts-Suffix p zero (c ∷ s) = elim (Bool-cases (p c)) [
  | inl e ↦ rw e (
      All-append (Suffix (c ∷ s)) (run_alts p 0 s) ((c ∷ s) ∷ [])
        (All-map (Suffix s) (Suffix (c ∷ s)) (Suffix-cons c s) (run_alts p 0 s)
          (run_alts-Suffix p zero s))
        (Suffix-refl (c ∷ s), tt))
  | inr e ↦ rw e (Suffix-refl (c ∷ s), tt)
]
run_alts-Suffix p (suc n) [] = tt
run_alts-Suffix p (suc n) (c ∷ s) = elim (Bool-cases (p c)) [
  | inl e ↦ rw e (
      All-map (Suffix s) (Suffix (c ∷ s)) (Suffix-cons c s) (run_alts p n s)
        (run_alts-Suffix p n s))
  | inr e ↦ rw e tt
]

flat_map-Suffix :
    (f : Text → List Text) (s : Text) (ts : List Text)
    → ((t : Text) → All (Suffix t) (f t))
    → All (Suffix s) ts
    → All (Suffix s) (flat_map f ts)
flat_map-Suffix f s [] h k = tt
flat_map-Suffix f s (t ∷ ts) h (k, ks) =
    All-append (Suffix s) (f t) (flat_map f ts) (Suffix-All s t (f t) k (h t))
      (flat_map-Suffix f s ts h ks)

plus_alts-Suffix :
    (f : Text → List Text) (n : ℕ) (s : Text)
    → ((t : Text) → All (Suffix t) (f t))
    → All (Suffix s) (plus_alts f n s)
plus_alts-Suffix f zero s h = tt
plus_alts-Suffix f (suc n) s h =
    flat_map-Suffix (λ t. plus_alts f n t ++ (t ∷ [])) s (f s)
      (λ t.
        All-append (Suffix t) (plus_alts f n t) (t ∷ []) (plus_alts-Suffix f n t h)
          (Suffix-refl t, tt))
      (h s)

pub alts-Suffix : (re : Re) (s : Text) → All (Suffix s) (alts re s)
unfolding alts
alts-Suffix empty s = (Suffix-refl s, tt)
alts-Suffix at_end [] = (Suffix-refl [], tt)
alts-Suffix at_end (c ∷ s) = tt
alts-Suffix (byte p) [] = tt
alts-Suffix (byte p) (c ∷ s) = elim (Bool-cases (p c)) [
  | inl e ↦ rw e ((c ∷ [], refl), tt)
  | inr e ↦ rw e tt
]
alts-Suffix (run p n) s = run_alts-Suffix p n s
alts-Suffix (follow a b) s = flat_map-Suffix (alts b) s (alts a s) (alts-Suffix b) (alts-Suffix a s)
alts-Suffix (either a b) s =
    All-append (Suffix s) (alts a s) (alts b s) (alts-Suffix a s) (alts-Suffix b s)
alts-Suffix (plus a) s = plus_alts-Suffix (alts a) (length s) s (alts-Suffix a)

-- What a match leaves whose last byte is of a kind.
abbrev pub Behind : (ℕ → Bool) → Text → Text → Type 0
Behind p s t = (pre : Text) × ((c : ℕ) × ((p c ≡ true) × (s ≡ pre ++ (c ∷ t))))

byte-Behind : (p : ℕ → Bool) (s : Text) → All (Behind p s) (alts (byte p) s)
unfolding alts
byte-Behind p [] = tt
byte-Behind p (c ∷ s) = elim (Bool-cases (p c)) [
  | inl e ↦ rw e (([], (c, (e, refl))), tt)
  | inr e ↦ rw e tt
]

Behind-trans : (p : ℕ → Bool) (s t u : Text) → Suffix s t → Behind p t u → Behind p s u
Behind-trans p s t u (a, e) (b, (c, (h, d))) =
    (a ++ b, (c, (h, e ∙ ap (λ x. a ++ x) d ∙ sym (append_assoc a b (c ∷ u)))))

flat_map-Behind :
    (p : ℕ → Bool) (s : Text) (ts : List Text)
    → All (Suffix s) ts
    → All (Behind p s) (flat_map (alts (byte p)) ts)
flat_map-Behind p s [] k = tt
flat_map-Behind p s (t ∷ ts) (k, ks) =
    All-append (Behind p s) (alts (byte p) t) (flat_map (alts (byte p)) ts)
      (All-map (Behind p t) (Behind p s) (λ u. Behind-trans p s t u k) (alts (byte p) t)
        (byte-Behind p t))
      (flat_map-Behind p s ts ks)

pub follow-Behind :
    (a : Re) (p : ℕ → Bool) (s : Text) → All (Behind p s) (alts (follow a (byte p)) s)
follow-Behind a p s = unfold alts in flat_map-Behind p s (alts a s) (alts-Suffix a s)

value_or : Text → Option Text → Text
value_or d none = d
value_or d (some t) = t

some_inj : (u t : Text) → some u ≡ some t → u ≡ t
unfolding value_or
some_inj u t e = ap (value_or u) e

pub first_of-All :
    (P : Text → Type 0) (ts : List Text) (t : Text) → All P ts → first_of ts ≡ some t → P t
first_of-All P [] t h e = absurd (cc e)
first_of-All P (u ∷ us) t (h, hs) e = subst P (some_inj u t e) h

-- The text in front of an end.
pub take-front : (pre t : Text) → take (length (pre ++ t) - length t) (pre ++ t) ≡ pre
take-front [] t = let e : length t - length t ≡ 0 = omega arith in rw e refl
take-front (c ∷ pre) t =
    let e : suc (length (pre ++ t)) - length t ≡ suc (length (pre ++ t) - length t) =
      omega (arith, length-append {0} pre t) in
    rw e (ap (λ u. c ∷ u) (take-front pre t))
