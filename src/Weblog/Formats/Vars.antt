-- ===== src/Weblog/Formats/Vars.antt =====
-- The variables of a log format: what the scan of varsOf finds.
use topsrv.Base.{
  ◌∙◌, ◌≡◌, Bool, true, false, not, ◌&&◌, List, [], ◌∷◌, ◌++◌, Text, is_empty, same_refl, all, eqb,
  refl, sym, arith, inl, inr, Bool-cases, and-true, append_assoc, append-nil,
}
use topsrv.Weblog.Formats.{is_word, add_var, scan_vars, vars_of, has}

has-add_var :
    (w word : Text) (vars : List Text) → has vars word ≡ true → has (add_var w vars) word ≡ true
unfolding has
has-add_var w word vars h = ground arith

has-add_var_self :
    (word : Text) (vars : List Text) → is_empty word ≡ false → has (add_var word vars) word ≡ true
unfolding has
has-add_var_self word vars h = ground (arith, same_refl word)

-- No word goes on into the text.
abbrev pub ends_word : Text → Bool
ends_word [] = true
ends_word (c ∷ s) = not (is_word c)

scan_word :
    (word b pre full : Text)
    → pre ++ word ≡ full
    → all is_word word ≡ true
    → is_empty full ≡ false
    → ends_word b ≡ true
    → has (scan_vars (word ++ b) true pre) full ≡ true
unfolding scan_vars
scan_word [] [] pre full e words some ends =
    let whole = sym (append-nil pre) ∙ e in rw whole (has-add_var_self full [] some)
scan_word [] (c ∷ b) pre full e words some ends =
    let whole = sym (append-nil pre) ∙ e in
    let stop : is_word c ≡ false = ground arith in rw (stop, whole) (has-add_var_self full _ some)
scan_word (c ∷ word) b pre full e words some ends =
    let both = and-true {a = is_word c} {b = all is_word word} words in
    rw both.0
      (scan_word word b (pre ++ c ∷ []) full (append_assoc pre (c ∷ []) word ∙ e) both.1 some ends)

scan_prefix :
    (a word b pre : Text) (inside : Bool)
    → all is_word word ≡ true
    → is_empty word ≡ false
    → ends_word b ≡ true
    → has (scan_vars (a ++ b'$' ∷ word ++ b) inside pre) word ≡ true
unfolding scan_vars
scan_prefix [] word b pre inside words some ends = ground (
  arith,
  has-add_var pre word (scan_vars (word ++ b) true [])
      (scan_word word b [] word refl words some ends),
)
scan_prefix (c ∷ a) word b pre inside words some ends = elim (Bool-cases (inside && is_word c)) [
  | inl t ↦ rw t (scan_prefix a word b (pre ++ c ∷ []) true words some ends)
  | inr t ↦ elim (Bool-cases (eqb c b'$')) [
    | inl u ↦ rw (t, u) (has-add_var pre word _ (scan_prefix a word b [] true words some ends))
    | inr u ↦ rw (t, u) (has-add_var pre word _ (scan_prefix a word b [] false words some ends))
  ]
]

-- A format that mentions a variable, whatever stands before it and with no more of a name behind it,
-- is found to have it.
pub vars_of-has :
    (a word b : Text)
    → all is_word word ≡ true
    → is_empty word ≡ false
    → ends_word b ≡ true
    → has (vars_of (a ++ b'$' ∷ word ++ b)) word ≡ true
unfolding vars_of
vars_of-has a word b words some ends = scan_prefix a word b [] false words some ends
