-- ===== src/Nginx/Fields/Request.antt =====
-- The parts of a request line, and the query of a URI.
use topsrv.Base.{
  ◌⊎◌, ℕ, ◌≡◌, Bool, true, false, not, ◌||◌, [], ◌∷◌, ◌++◌, none, some, Text, codes, same, is_empty,
  cut_at, trim_prefix, all, eqb, refl, arith, inl, inr, Bool-cases,
}
use topsrv.Nginx.Fields.{
  is_token, method_of, valid_method, raw_uri_from_request, strip_query, join_path_args, question,
}

-- The byte does not occur.
abbrev pub lacks : ℕ → Text → Bool
lacks c s = all (λ d. not (eqb d c)) s

cut_at_first : (c : ℕ) (a b : Text) → lacks c a ≡ true → cut_at c (a ++ c ∷ b) ≡ some (a, b)
unfolding cut_at
cut_at_first c [] b h = ground arith
cut_at_first c (d ∷ a) b h = ground (arith, cut_at_first c a b)

token_space : (first : Bool) (a b : Text) → is_token first (a ++ b' ' ∷ b) ≡ false
unfolding is_token
token_space first [] b = ground arith
token_space first (c ∷ a) b = ground (arith, token_space false a b)

line_no_method : (a b : Text) → valid_method (a ++ b' ' ∷ b) ≡ []
unfolding valid_method
line_no_method a b = ground (arith, token_space true a b)

-- Where neither the verb nor the URI holds a space, a request line gives back its verb, where that is valid, and its URI, whatever the protocol behind
-- them.
pub request_line_lem :
    (verb uri proto : Text)
    → lacks b' ' verb ≡ true
    → lacks b' ' uri ≡ true
    → (method_of (verb ++ b' ' ∷ (uri ++ b' ' ∷ proto)) ≡ valid_method verb)
      × (raw_uri_from_request (verb ++ b' ' ∷ (uri ++ b' ' ∷ proto)) ≡ uri)
unfolding method_of raw_uri_from_request
request_line_lem verb uri proto h k =
    let rest = uri ++ b' ' ∷ proto in
    let first = cut_at_first b' ' verb rest h in
    let second = cut_at_first b' ' uri proto k in
    (
      rw (line_no_method verb rest, method_of, first) refl,
      rw (first, raw_uri_from_request, second) refl,
    )

strip_some : (a b : Text) → lacks b'?' a ≡ true → strip_query (a ++ b'?' ∷ b) ≡ a
unfolding strip_query
strip_some a b h = rw (cut_at_first b'?' a b h, strip_query) refl

cut_at-lacks : (c : ℕ) (s : Text) → lacks c s ≡ true → cut_at c s ≡ none
unfolding cut_at
cut_at-lacks c [] h = refl
cut_at-lacks c (d ∷ s) h = ground (arith, cut_at-lacks c s)

cut_at_cases :
    (c : ℕ) (s : Text)
    → ((cut_at c s ≡ none) × (lacks c s ≡ true))
      ⊎ ((a : Text) × (b : Text) × (cut_at c s ≡ some (a, b)) × (lacks c a ≡ true))
unfolding cut_at
cut_at_cases c [] = inl (refl, refl)
cut_at_cases c (d ∷ s) = elim (Bool-cases (eqb d c)) [
  | inl t ↦ inr ([], s, rw t refl, refl)
  | inr t ↦ elim (cut_at_cases c s) [
    | inl (e, l) ↦ inl (rw (t, e) refl, rw t l)
    | inr (a, b, e, l) ↦ inr (d ∷ a, b, rw (t, e) refl, rw t l)
  ]
]

strip-lacks : (s : Text) → lacks b'?' (strip_query s) ≡ true
strip-lacks s = elim (cut_at_cases b'?' s) [
  | inl (e, l) ↦ unfold strip_query in rw (e, strip_query) l
  | inr (a, b, e, l) ↦ unfold strip_query in rw (e, strip_query) l
]

strip_plain : (s : Text) → lacks b'?' s ≡ true → strip_query s ≡ s
unfolding strip_query
strip_plain s h = rw (cut_at-lacks b'?' s h, strip_query) refl

-- A URI that is put together of a path and arguments has the path as its part before the query, and a
-- path without a query is left alone: nothing of a query reaches what is compared as a path.
pub join_path_args_lem :
    (path args : Text)
    → (strip_query (join_path_args path args) ≡ strip_query path)
      × (lacks b'?' (strip_query path) ≡ true)
      × (strip_query (strip_query path) ≡ strip_query path)
join_path_args_lem path args =
    let plain = strip_plain (strip_query path) (strip-lacks path) in
    (
      elim (Bool-cases
          (is_empty (trim_prefix question args) || same (trim_prefix question args) (codes "-"))) [
            | inl t ↦ unfold join_path_args in rw (t, join_path_args) plain
            | inr t ↦
                unfold join_path_args in
                rw (t, join_path_args)
                  (strip_some (strip_query path) (trim_prefix question args) (strip-lacks path))
          ],
      strip-lacks path,
      plain,
    )
