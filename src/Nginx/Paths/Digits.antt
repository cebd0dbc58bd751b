-- ===== src/Nginx/Paths/Digits.antt =====
-- The replacement of numeric segments leaves none.
use topsrv.Base.{
  length-append, ap, All-append, zero, subst, append_assoc, inr, inl, Option-cases, refl, [], ◌⊎◌,
  Bool-cases, suc, arith, true, some, codes, ◌≤◌, is_digit, ◌++◌, none, length, false, ◌≡◌, ◌∷◌,
  eqb, List, Bool, Text, ℕ,
}
use topsrv.Nginx.Regex.{run, alts, run_alts, first_of, replace_from, replace_all}
use topsrv.Nginx.Regex.Suffix.{Suffix, alts-Suffix, first_of-All}
use topsrv.Nginx.Paths.{numeric_segment, const}
use topsrv.Nginx.Paths.Clean.{clean_after}

abbrev starts_digit : Text → Bool
starts_digit [] = false
starts_digit (c ∷ s) = is_digit c

clean_true :
    (s : Text) → clean_after false s ≡ true → starts_digit s ≡ false → clean_after true s ≡ true
clean_true [] h d = refl
clean_true (c ∷ s) h d = ground (arith, h, d)

run_found :
    (p : ℕ → Bool) (s : Text) (ts : List Text)
    → (t : Text) × (first_of (run_alts p 0 s ++ ts) ≡ some t)
run_found p [] ts = ([], refl)
run_found p (c ∷ s) ts = elim (Bool-cases (p c)) [
  | inl e ↦
      let (t, h) = run_found p s (((c ∷ s) ∷ []) ++ ts) in
      rw (e, append_assoc (run_alts p 0 s) ((c ∷ s) ∷ []) ts) (t, h)
  | inr e ↦ rw e (c ∷ s, refl)
]

matched :
    (c d : ℕ) (s : Text)
    → eqb b'/' c ≡ true
    → is_digit d ≡ true
    → alts numeric_segment (c ∷ d ∷ s) ≡ (run_alts is_digit 0 s ++ [])
unfolding alts
matched c d s q t = rw (q, alts) (rw t refl)

no_match :
    (c : ℕ) (s : Text)
    → first_of (alts numeric_segment (c ∷ s)) ≡ none
    → (eqb c b'/' ≡ false) ⊎ (starts_digit s ≡ false)
no_match c [] e = inr refl
no_match c (d ∷ s) e = elim (Bool-cases (is_digit d)) [
  | inr f ↦ inr f
  | inl t ↦ elim (Bool-cases (eqb c b'/')) [
    | inr f ↦ inl f
    | inl q ↦
        let (u, h) = run_found is_digit s [] in
        let q' : eqb b'/' c ≡ true = ground (arith, q) in
        let m = matched c d s q' t in absurd (cc (e, h, m))
  ]
]

-- A match takes its slash.
shorter :
    (c : ℕ) (s rest : Text)
    → first_of (alts numeric_segment (c ∷ s)) ≡ some rest
    → length rest ≤ length s
unfolding alts
shorter c s rest e = elim (Bool-cases (eqb b'/' c)) [
  | inl q ↦
      let a : alts numeric_segment (c ∷ s) ≡ (alts (run is_digit 1) s ++ []) = rw (q, alts) refl in
      let e' : first_of (alts (run is_digit 1) s ++ []) ≡ some rest =
        subst (λ ts. first_of ts ≡ some rest) a e in
      let all =
        All-append (Suffix s) (alts (run is_digit 1) s) [] (alts-Suffix (run is_digit 1) s) tt in
      let (pre, d) = first_of-All (Suffix s) (alts (run is_digit 1) s ++ []) rest all e' in
      omega (arith, ap length d, length-append {0} pre rest)
  | inr q ↦
      let a : alts numeric_segment (c ∷ s) ≡ [] = rw (q, alts) refl in
      absurd (cc (subst (λ ts. first_of ts ≡ some rest) a e))
]

starts_digit-replace :
    (n : ℕ) (s : Text)
    → starts_digit s ≡ false
    → starts_digit (replace_from numeric_segment (const (codes "/:id")) n s) ≡ false
unfolding replace_from
starts_digit-replace zero s h = h
starts_digit-replace (suc n) [] h = refl
starts_digit-replace (suc n) (c ∷ s) h =
    elim (Option-cases (first_of (alts numeric_segment (c ∷ s)))) [
      | inl e ↦ rw (e, replace_from) h
      | inr (rest, e) ↦ rw (e, replace_from) refl
    ]

replace_from-clean :
    (n : ℕ) (s : Text)
    → length s ≤ n
    → clean_after false (replace_from numeric_segment (const (codes "/:id")) n s) ≡ true
unfolding replace_from
replace_from-clean zero [] le = refl
replace_from-clean zero (c ∷ s) le = absurd (omega arith)
replace_from-clean (suc n) [] le = refl
replace_from-clean (suc n) (c ∷ s) le =
    elim (Option-cases (first_of (alts numeric_segment (c ∷ s)))) [
      | inr (rest, e) ↦
          let short = shorter c s rest e in
          rw (e, replace_from) (replace_from-clean n rest (omega (arith, short)))
      | inl e ↦
          let ih = replace_from-clean n s (omega arith) in
          let next = replace_from numeric_segment (const (codes "/:id")) n s in
          rw (e, replace_from)
            (elim (no_match c s e) [
              | inl q ↦ rw q ih
              | inr d ↦ elim (Bool-cases (eqb c b'/')) [
                | inl q ↦ rw q (clean_true next ih (starts_digit-replace n s d))
                | inr q ↦ rw q ih
              ]
            ])
    ]

-- After the replacement no slash stands before a digit, whatever the text was.
pub replace_all-numeric :
    (s : Text) → clean_after false (replace_all numeric_segment (const (codes "/:id")) s) ≡ true
unfolding replace_all
replace_all-numeric s = replace_from-clean (length s) s (omega arith)
