-- ===== src/Packages/Dpkg/Paragraphs.antt =====
-- Paragraphs of fields, written and read: parseRFC822 of internal/topsrv/packages/dpkg.go.
use topsrv.Base.{
  scan_lines-unlines, some, unlines, subst, sym, IsLine, ap, ◌∙◌, cut_at-append, ◌||◌, append_assoc,
  eqb, append-nil, same_refl, arith, refl, trim_space-blank, not, false, same, [], lacks, is_empty,
  All, true, Bool, ◌∷◌, trim_space, ◌++◌, store_field, ◌≡◌, lookup, Fields, List, Text,
}
use topsrv.Packages.Dpkg.{
  is_empty_record, Parser, flush, continue_line, field_line, parse_line, parse_lines, parse_rfc822,
  max_line,
}

-- A field with the first line of its value and the further ones.
pub record Field : Type 0 where
  pub key : Text
  pub value : Text
  pub more : List Text

abbrev pub continued : List Text → List Text
continued [] = []
continued (c ∷ cs) = (32 ∷ c) ∷ continued cs

abbrev pub print_field : Field → List Text
print_field f = (f.key ++ (b':' ∷ 32 ∷ f.value)) ∷ continued f.more

abbrev pub print_fields : List Field → List Text
print_fields [] = [] ∷ []
print_fields (f ∷ fs) = print_field f ++ print_fields fs

abbrev pub print_records : List (List Field) → List Text
print_records [] = []
print_records (r ∷ rs) = print_fields r ++ print_records rs

-- The value of a field: its lines, joined by newlines.
abbrev pub joined : Text → List Text → Text
joined v [] = v
joined v (c ∷ cs) = joined (v ++ (10 ∷ c)) cs

abbrev pub entries : List Field → Fields
entries [] = []
entries (f ∷ fs) = (f.key, joined f.value f.more) ∷ entries fs

abbrev pub Trimmed : Text → Type 0
Trimmed s = trim_space s ≡ s

abbrev starts_field : Text → Bool
starts_field [] = false
starts_field (c ∷ s) = not (eqb c 32 || eqb c 9)

abbrev pub IsField : Field → Type 0
IsField f =
    (starts_field f.key ≡ true) × (lacks b':' f.key ≡ true) × Trimmed f.value × All Trimmed f.more

abbrev pub Absent : Text → Fields → Type 0
Absent key [] = Unit
Absent key ((k, v) ∷ m) = (same k key ≡ false) × Absent key m

-- No key stands twice, nor in m.
abbrev pub Distinct : Fields → List Field → Type 0
Distinct m [] = Unit
Distinct m (f ∷ fs) = Absent f.key m × Distinct (m ++ ((f.key, joined f.value f.more) ∷ [])) fs

abbrev pub IsRecord : List Field → Type 0
IsRecord [] = ⊥
IsRecord (f ∷ fs) = All IsField (f ∷ fs) × Distinct [] (f ∷ fs)

store-Absent :
    (key value : Text) (m : Fields)
    → Absent key m
    → store_field key value m ≡ m ++ ((key, value) ∷ [])
unfolding store_field
store-Absent key value [] h = refl
store-Absent key value ((k, v) ∷ m) (e, h) = rw (e, store-Absent key value m h) refl

store_last :
    (key old new : Text) (m : Fields)
    → Absent key m
    → store_field key new (m ++ ((key, old) ∷ [])) ≡ m ++ ((key, new) ∷ [])
unfolding store_field
store_last key old new [] h = rw (same_refl key) refl
store_last key old new ((k, v) ∷ m) (e, h) = rw (e, store_last key old new m h) refl

lookup_last :
    (key old : Text) (m : Fields) → Absent key m → lookup key (m ++ ((key, old) ∷ [])) ≡ old
unfolding lookup
lookup_last key old [] h = rw (same_refl key) refl
lookup_last key old ((k, v) ∷ m) (e, h) = rw (e, lookup_last key old m h) refl

abbrev at : List Fields → Fields → Text → Parser
at records cur key = record { records = records; cur = cur; last_key = key }

parse_line-continued :
    (records : List Fields) (m : Fields) (key value c : Text)
    → is_empty key ≡ false
    → Absent key m
    → Trimmed c
    → parse_line (32 ∷ c) (at records (m ++ ((key, value) ∷ [])) key)
      ≡ at records (m ++ ((key, value ++ (10 ∷ c)) ∷ [])) key
unfolding parse_line continue_line
parse_line-continued records m key value c k a t =
    rw
      (
        k,
        continue_line,
        lookup_last key value m a,
        trim_space-blank c,
        t,
        store_last key value (value ++ (10 ∷ c)) m a,
      )
      refl

parse-continued :
    (records : List Fields) (m : Fields) (key value : Text) (cs rest : List Text)
    → is_empty key ≡ false
    → Absent key m
    → All Trimmed cs
    → parse_lines (continued cs ++ rest) (at records (m ++ ((key, value) ∷ [])) key)
      ≡ parse_lines rest (at records (m ++ ((key, joined value cs) ∷ [])) key)
unfolding parse_lines
parse-continued records m key value [] rest k a h = refl
parse-continued records m key value (c ∷ cs) rest k a (t, h) =
    ap (parse_lines (continued cs ++ rest)) (parse_line-continued records m key value c k a t)
    ∙ parse-continued records m key (value ++ (10 ∷ c)) cs rest k a h

starts-not_empty : (key : Text) → starts_field key ≡ true → is_empty key ≡ false
starts-not_empty [] h = absurd (ground (arith, h))
starts-not_empty (c ∷ s) h = refl

field_line-print :
    (records : List Fields) (m : Fields) (last key value : Text)
    → is_empty key ≡ false
    → lacks b':' key ≡ true
    → Trimmed value
    → Absent key m
    → field_line (key ++ (b':' ∷ 32 ∷ value)) (at records m last)
      ≡ at records (m ++ ((key, value) ∷ [])) key
unfolding field_line
field_line-print records m last key value k l t a =
    rw
      (
        cut_at-append b':' key (32 ∷ value) l,
        field_line,
        k,
        trim_space-blank value,
        t,
        store-Absent key value m a,
      )
      refl

parse_line-field :
    (key value : Text) (p : Parser)
    → starts_field key ≡ true
    → parse_line (key ++ (b':' ∷ 32 ∷ value)) p ≡ field_line (key ++ (b':' ∷ 32 ∷ value)) p
unfolding parse_line
parse_line-field [] value p s = absurd (ground (arith, s))
parse_line-field (c ∷ key) value p s =
    let blank : (eqb c 32 || eqb c 9) ≡ false = ground (arith, s) in rw (blank, parse_line) refl

parse-field :
    (records : List Fields) (m : Fields) (last : Text) (f : Field) (rest : List Text)
    → IsField f
    → Absent f.key m
    → parse_lines (print_field f ++ rest) (at records m last)
      ≡ parse_lines rest (at records (m ++ ((f.key, joined f.value f.more) ∷ [])) f.key)
unfolding parse_lines
parse-field records m last f rest (s, l, t, ts) a =
    let k : is_empty f.key ≡ false = starts-not_empty f.key s in
    ap (parse_lines (continued f.more ++ rest)) (
      parse_line-field f.key f.value (at records m last) s
      ∙ field_line-print records m last f.key f.value k l t a)
    ∙ parse-continued records m f.key f.value f.more rest k a ts

flush-at :
    (records : List Fields) (m : Fields) (last : Text)
    → is_empty_record m ≡ false
    → flush (at records m last) ≡ at (records ++ (m ∷ [])) [] []
unfolding flush
flush-at records m last h = rw (h, flush) refl

parse-fields :
    (records : List Fields) (m : Fields) (last : Text) (fs : List Field) (rest : List Text)
    → All IsField fs
    → Distinct m fs
    → is_empty_record (m ++ entries fs) ≡ false
    → parse_lines (print_fields fs ++ rest) (at records m last)
      ≡ parse_lines rest (at (records ++ ((m ++ entries fs) ∷ [])) [] [])
unfolding parse_lines parse_line
parse-fields records m last [] rest h d n =
    let n' : is_empty_record m ≡ false = subst (λ k. is_empty_record k ≡ false) (append-nil m) n in
    ap (parse_lines rest)
      (flush-at records m last n' ∙ ap (λ k. at (records ++ (k ∷ [])) [] []) (sym (append-nil m)))
parse-fields records m last (f ∷ fs) rest (h, hs) (a, d) n =
    let e : Text × Text = (f.key, joined f.value f.more) in
    let assoc : (m ++ (e ∷ [])) ++ entries fs ≡ m ++ (e ∷ entries fs) =
      append_assoc m (e ∷ []) (entries fs) in
    ap (λ ls. parse_lines ls (at records m last))
      (append_assoc (print_field f) (print_fields fs) rest)
    ∙ parse-field records m last f (print_fields fs ++ rest) h a
    ∙ parse-fields records (m ++ (e ∷ [])) f.key fs rest hs d (rw assoc n)
    ∙ ap (λ k. parse_lines rest (at (records ++ (k ∷ [])) [] [])) assoc

abbrev pub all_entries : List (List Field) → List Fields
all_entries [] = []
all_entries (r ∷ rs) = entries r ∷ all_entries rs

parse-records :
    (records : List Fields) (rs : List (List Field))
    → All IsRecord rs
    → (parse_lines (print_records rs) (at records [] [])).records ≡ records ++ all_entries rs
unfolding parse_lines flush
parse-records records [] h = sym (append-nil records)
parse-records records ([] ∷ rs) (bad, h) = elim bad [ ]
parse-records records ((f ∷ fs) ∷ rs) ((hf, d), h) =
    ap (λ p. p.records) (parse-fields records [] [] (f ∷ fs) (print_records rs) hf d refl)
    ∙ parse-records (records ++ (entries (f ∷ fs) ∷ [])) rs h
    ∙ append_assoc records (entries (f ∷ fs) ∷ []) (all_entries rs)

-- Paragraphs that are written out are read back: each as the record of its fields in their order,
-- with the further lines of a value joined by newlines. This is for records with at least one field
-- and no key twice, keys that do not start with a blank and hold no colon, values without white space
-- at the ends of their lines, and lines that hold no newline, do not end in a carriage return, and
-- are below a mebibyte.
pub parse_rfc822-print :
    (rs : List (List Field))
    → All IsRecord rs
    → All (IsLine max_line) (print_records rs)
    → parse_rfc822 (unlines (print_records rs)) ≡ some (all_entries rs)
unfolding parse_rfc822
parse_rfc822-print rs h lines =
    rw (scan_lines-unlines max_line (print_records rs) lines, parse-records [] rs h) refl
