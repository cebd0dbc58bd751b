-- ===== src/Nginx/Fields/Resolve.antt =====
-- Which value a resolver returns.
use topsrv.Base.{
  subst, ltb, ◌≡◌, ◌⊎◌, ◌≤◌, Bool, true, false, ◌||◌, List, [], ◌∷◌, ◌++◌, Text, codes, same,
  is_empty, cut_at, length, all, All, eqb, refl, sym, ap, arith, inl, inr, Bool-cases, Option-cases,
}
use topsrv.Nginx.Fields.{
  max_method_len, is_upper, is_token, valid_method, method_of, first_value, named, method_names,
  time_names, resolve_method, present, resolve_client_field, resolve_time,
}

-- A verb as it may be shipped.
pub record IsVerb (v : Text) : Type 0 where
  pub some_byte : is_empty v ≡ false
  pub short : length v ≤ max_method_len
  pub letters : all (λ c. is_upper c || eqb c b'-') v ≡ true
  pub not_dash : same v (codes "-") ≡ false

token_letters :
    (first : Bool) (s : Text)
    → is_token first s ≡ true
    → all (λ c. is_upper c || eqb c b'-') s ≡ true
unfolding is_token
token_letters first [] h = refl
token_letters first (c ∷ s) h = ground (arith, token_letters false s)

token_not_dash : (s : Text) → is_token true s ≡ true → same s (codes "-") ≡ false
unfolding is_token same
token_not_dash [] h = refl
token_not_dash (c ∷ s) h = ground arith

valid_method_lem : (s : Text) → (valid_method s ≡ []) ⊎ ((valid_method s ≡ s) × IsVerb s)
unfolding valid_method
valid_method_lem s = elim (Bool-cases (is_empty s || ltb max_method_len (length s))) [
  | inl t ↦ inl (rw t refl)
  | inr t ↦ elim (Bool-cases (is_token true s)) [
    | inr u ↦ inl (rw (t, u) refl)
    | inl u ↦ inr (
      rw (t, u) refl,
      record {
        some_byte = ground arith;
        short = ground arith;
        letters = token_letters true s u;
        not_dash = token_not_dash s u;
      },
    )
  ]
]

-- A value is shipped only as a verb.
abbrev pub ShippedVerb : Text → Type 0
ShippedVerb v = (v ≡ []) ⊎ IsVerb v

valid_shipped : (s : Text) → ShippedVerb (valid_method s)
valid_shipped s = elim (valid_method_lem s) [
  | inl e ↦ inl e
  | inr (e, verb) ↦ inr (subst (λ v. IsVerb v) (sym e) verb)
]

method_of-ShippedVerb : (s : Text) → ShippedVerb (method_of s)
method_of-ShippedVerb s = elim (Bool-cases (is_empty (valid_method s))) [
  | inr t ↦ unfold method_of in rw (t, method_of) (valid_shipped s)
  | inl t ↦ elim (Option-cases (cut_at b' ' s)) [
    | inl e ↦ unfold method_of in rw (t, method_of, e) (inl refl)
    | inr (parts, e) ↦ unfold method_of in rw (t, method_of, e) (valid_shipped parts.0)
  ]
]

-- The first of the names that gives a value, or none of them does.
abbrev pub Resolved : (Text → Text) → (Text → Text) → List Text → Text → Type 0
Resolved pick get names r =
    ((name : Text) × (before : List Text) × (after : List Text) × (names ≡ before ++ name ∷ after)
      × All (λ n. is_empty (pick (get n)) ≡ true) before
      × (is_empty (pick (get name)) ≡ false)
      × (r ≡ pick (get name)))
    ⊎ (All (λ n. is_empty (pick (get n)) ≡ true) names × (r ≡ []))

first_value-Resolved :
    (pick get : Text → Text) (names : List Text)
    → Resolved pick get names (first_value pick get names)
unfolding first_value
first_value-Resolved pick get [] = inr (tt, refl)
first_value-Resolved pick get (n ∷ names) = elim (Bool-cases (is_empty (pick (get n)))) [
  | inr t ↦ inl (n, [], names, refl, tt, t, rw t refl)
  | inl t ↦ elim (first_value-Resolved pick get names) [
    | inl (name, before, after, e, none_of, found, r) ↦
        inl (name, n ∷ before, after, ap (λ l. n ∷ l) e, (t, none_of), found, rw t r)
    | inr (none_of, r) ↦ inr ((t, none_of), rw t r)
  ]
]

first_value-each :
    (P : Text → Type 0) (pick get : Text → Text)
    → ((v : Text) → P (pick v))
    → P []
    → (names : List Text) → P (first_value pick get names)
unfolding first_value
first_value-each P pick get each base [] = base
first_value-each P pick get each base (n ∷ names) = elim (Bool-cases (is_empty (pick (get n)))) [
  | inl t ↦ rw t (first_value-each P pick get each base names)
  | inr t ↦ rw t (each (get n))
]

-- The verb of a line is that of the first name, the operator's own before the canonical ones, whose
-- value is or begins with one. It is shipped only as a verb: at most 16 bytes, upper-case letters and
-- hyphens, and no dash; nothing is guessed where no name has one.
pub resolve_method_lem :
    (method_field : Text) (get : Text → Text)
    → Resolved method_of get (named method_field method_names) (resolve_method method_field get)
      × ShippedVerb (resolve_method method_field get)
unfolding resolve_method
resolve_method_lem method_field get = (
  first_value-Resolved method_of get (named method_field method_names),
  first_value-each (λ v. ShippedVerb v) method_of get method_of-ShippedVerb (inl refl)
      (named method_field method_names),
)

present_lem : (v : Text) → same (present v) (codes "-") ≡ false
present_lem v = elim (Bool-cases (same v (codes "-"))) [
  | inl t ↦ unfold same in rw t refl
  | inr t ↦ rw t t
]

-- The time of a line and the fields of the client are the first value that is logged; nginx's dash for
-- an absent value is passed over and never shipped.
pub resolve_fields_lem :
    (time_field : Text) (candidates : List Text) (get : Text → Text)
    → Resolved present get (named time_field time_names) (resolve_time time_field get)
      × (same (resolve_time time_field get) (codes "-") ≡ false)
      × Resolved present get candidates (resolve_client_field get candidates)
      × (same (resolve_client_field get candidates) (codes "-") ≡ false)
unfolding resolve_time resolve_client_field same
resolve_fields_lem time_field candidates get = (
  first_value-Resolved present get (named time_field time_names),
  first_value-each (λ v. same v (codes "-") ≡ false) present get present_lem refl
      (named time_field time_names),
  first_value-Resolved present get candidates,
  first_value-each (λ v. same v (codes "-") ≡ false) present get present_lem refl candidates,
)
