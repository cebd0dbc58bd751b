-- ===== src/App/Fields.antt =====
-- What the observers read of a line is what the configuration promises.
use topsrv.App.{
  required, contains_name, add_new, add_all, merge_unique, cap_extract_fields, Streams,
  log_streams_enabled, wanted_fields, wire,
}
use topsrv.Base.{
  take-append-drop, length-take, take_all, leb, ◌≤◌, is_empty, if◌then◌else◌, map, suc, Option, sym,
  ap, subst, same_eq, ◌||◌, ◌∙◌, same_eq, ap, map, sym, ◌||◌, Text, Bool, Bool-cases, List, [], ◌∷◌,
  ◌++◌, same, take, drop, length, ◌≡◌, refl, true, false, inl, inr, ◌⊎◌, ℕ, arith, some, none,
}
use topsrv.Botlog.Aliases.{FieldAliases}
use topsrv.Botlog.Values.{index_of, index_or_skip, field}
use topsrv.Nginx.Line.{max_extras, Names, fill_line}

shifted :
    (v : Text) (vs : List Text) (o : Option ℕ)
    → field (v ∷ vs) (elim o [ none ↦ none | some i ↦ some (suc i) ]) ≡ field vs o
unfolding field
shifted v vs none = refl
shifted v vs (some i) = refl

later_true : (a b : Bool) → a || b ≡ true → a ≡ false → b ≡ true
later_true a b h e = ground (arith, e, h)

field-index :
    (get : Text → Text) (xs : List Text) (name : Text)
    → contains_name name xs ≡ true
    → field (map get xs) (index_of xs name) ≡ get name
unfolding field index_of
field-index get [] name h = absurd cc
field-index get (x ∷ xs) name h = elim (Bool-cases (same x name)) [
  | inl e ↦ rw e (ap get (same_eq x name e))
  | inr e ↦ rw e (
      shifted (get x) (map get xs) (index_of xs name)
      ∙ field-index get xs name (later_true (same x name) (contains_name name xs) h e))
]

index_of-missing :
    (xs : List Text) (name : Text) → contains_name name xs ≡ false → index_of xs name ≡ none
unfolding index_of
index_of-missing [] name h = refl
index_of-missing (x ∷ xs) name h = elim (Bool-cases (same x name)) [
  | inl e ↦ absurd (ground (arith, e, h))
  | inr e ↦ rw (e, index_of-missing xs name (ground (arith, e, h))) refl
]

contains-append :
    (xs ys : List Text) (name : Text)
    → contains_name name (xs ++ ys) ≡ (contains_name name xs || contains_name name ys)
contains-append [] ys name = refl
contains-append (x ∷ xs) ys name = ground (arith, contains-append xs ys name)

-- What is one of the names already adds nothing.
absorbed :
    (out : List Text) (v name : Text)
    → contains_name v out ≡ true
    → contains_name name out ≡ (contains_name name out || same v name)
absorbed out v name h = elim (Bool-cases (same v name)) [
  | inl e ↦
      let k : contains_name name out ≡ true =
        subst (λ t. contains_name t out ≡ true) (same_eq v name e) h in
      rw k refl
  | inr e ↦ ground (arith, e)
]

add_new-contains :
    (out : List Text) (v name : Text)
    → contains_name name (add_new out v) ≡ (contains_name name out || same v name)
add_new-contains out v name = elim (Bool-cases (contains_name v out)) [
  | inl e ↦ rw e (absorbed out v name e)
  | inr e ↦ rw (e, contains-append out (v ∷ []) name) (ground arith)
]

add_all-contains :
    (out vs : List Text) (name : Text)
    → contains_name name (add_all out vs) ≡ (contains_name name out || contains_name name vs)
unfolding add_all
add_all-contains out [] name = ground arith
add_all-contains out (v ∷ vs) name =
    rw (add_all-contains (add_new out v) vs name, add_new-contains out v name) (ground arith)

merge_unique-contains :
    (base extras : List Text) (name : Text)
    → contains_name name (merge_unique base extras)
      ≡ (contains_name name base || contains_name name extras)
unfolding merge_unique
merge_unique-contains base extras name =
    rw (add_all-contains (add_all [] base) extras name, add_all-contains [] base name) refl

wanted_fields-contains :
    (s : Streams) (labels : List Text) (aliases : FieldAliases) (name : Text)
    → log_streams_enabled s ≡ true
    → contains_name name (wanted_fields s labels aliases)
      ≡ (contains_name name labels || contains_name name (required s aliases))
unfolding wanted_fields
wanted_fields-contains s labels aliases name on =
    rw on (merge_unique-contains labels (required s aliases) name)

-- Every name is kept or dropped.
capped-contains :
    (fields : List Text) (name : Text)
    → contains_name name fields ≡ (
        contains_name name (cap_extract_fields fields).0
        || contains_name name (cap_extract_fields fields).1)
unfolding cap_extract_fields
capped-contains fields name = elim (Bool-cases (leb (length fields) max_extras)) [
  | inl e ↦ rw e (ground arith)
  | inr e ↦ rw e (
      ap (contains_name name) (sym (take-append-drop max_extras fields))
      ∙ contains-append (take max_extras fields) (drop max_extras fields) name)
]

length-capped : (fields : List Text) → length (cap_extract_fields fields).0 ≤ max_extras
unfolding cap_extract_fields
length-capped fields = elim (Bool-cases (leb (length fields) max_extras)) [
  | inl e ↦ rw e (ground (arith, e))
  | inr e ↦ rw e (omega (arith, length-take max_extras fields))
]

-- What an observer finds under a name.
abbrev pub read : Names → (Text → Text) → Text → Text
read c get name = field (fill_line c get).extras (index_or_skip c.extract_fields name)

abbrev pub or_nothing : Text → Text → Text
or_nothing name value = if is_empty name then [] else value

read-kept :
    (c : Names) (get : Text → Text) (name : Text)
    → length c.extract_fields ≤ max_extras
    → contains_name name c.extract_fields ≡ true
    → read c get name ≡ or_nothing name (get name)
unfolding fill_line index_or_skip field
read-kept c get name few h = elim (Bool-cases (is_empty name)) [
  | inl e ↦ rw e refl
  | inr e ↦
      rw (e, take_all max_extras c.extract_fields few) (field-index get c.extract_fields name h)
]

read-dropped :
    (c : Names) (get : Text → Text) (name : Text)
    → contains_name name c.extract_fields ≡ false
    → read c get name ≡ []
unfolding index_or_skip field
read-dropped c get name h = elim (Bool-cases (is_empty name)) [
  | inl e ↦ rw e refl
  | inr e ↦ rw (e, index_of-missing c.extract_fields name h) refl
]

-- Whatever the labels, the aliases and the streams that are on: an observer that looks up, in a line,
-- the name of a label or of a field that its stream requires reads the value that the line has under
-- that very name, and nothing of any other field; or the name is one of the fields that were
-- dropped because a line holds 8, and it reads nothing. The empty name reads nothing.
pub observers_read :
    (s : Streams) (labels : List Text) (aliases : FieldAliases) (given : Names) (get : Text → Text)
    (name : Text)
    → log_streams_enabled s ≡ true
    → (contains_name name labels || contains_name name (required s aliases)) ≡ true
    → (read (wire s labels aliases given) get name ≡ or_nothing name (get name))
      ⊎ ((contains_name name (cap_extract_fields (wanted_fields s labels aliases)).1 ≡ true)
          × (read (wire s labels aliases given) get name ≡ []))
observers_read s labels aliases given get name on known =
    let fields = wanted_fields s labels aliases in
    let c = wire s labels aliases given in
    let same_fields : c.extract_fields ≡ (cap_extract_fields fields).0 = unfold wire in refl in
    elim (Bool-cases (contains_name name (cap_extract_fields fields).0)) [
      | inl e ↦
          inl (read-kept c get name (rw same_fields (length-capped fields)) (rw same_fields e))
      | inr e ↦ inr (
        later_true (contains_name name (cap_extract_fields fields).0)
            (contains_name name (cap_extract_fields fields).1)
            (sym (capped-contains fields name)
              ∙ wanted_fields-contains s labels aliases name on
              ∙ known)
            e,
        read-dropped c get name (rw same_fields e),
      )
    ]
