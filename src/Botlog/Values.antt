-- ===== src/Botlog/Values.antt =====
-- The values of an event, internal/topsrv/botlog/event.go, and the fields that observer.go reads.
use topsrv.Base.{
  inl, inr, Bool-cases, refl, spelled, is_digit, all, parse_uint_below_lem, spelled, ◌⊎◌, true,
  false, arith, is_digit, ◌≡◌, ◌<◌, all, ◌≤◌, ℕ, suc, ◌^◌, ◌||◌, List, [], ◌∷◌, Text, codes, same,
  is_empty, if◌then◌else◌, leb, ltb, Option, none, some, length, get_elem?, parse_uint_below,
}
use topsrv.Runes.{truncate_at_rune}

abbrev dash : Text
dash = codes "-"

abbrev pub max_request_id_len : ℕ
max_request_id_len = 64

unfoldable pub dash_to_empty : Text → Text
dash_to_empty s = if same s dash then [] else s

-- A limit of 0 stands for all that is not positive: no cap.
unfoldable pub truncate : Text → ℕ → Text
truncate s n = if leb n 0 then s else truncate_at_rune s n

unfoldable pub sanitize_request_id : Text → Text
unfolding dash_to_empty
sanitize_request_id s = if ltb max_request_id_len (length s) then [] else dash_to_empty s

abbrev or_zero : Option ℕ → ℕ
or_zero none = 0
or_zero (some n) = n

unfoldable pub parse_status : Text → ℕ
parse_status s = if is_empty s || same s dash then 0 else or_zero (parse_uint_below (2 ^ 16) s)

unfoldable pub parse_uint32 : Text → ℕ
parse_uint32 s = if is_empty s || same s dash then 0 else or_zero (parse_uint_below (2 ^ 32) s)

-- slices.Index, and none for its -1.
unfoldable pub index_of : List Text → Text → Option ℕ
index_of [] name = none
index_of (x ∷ xs) name =
    let rest = index_of xs name in
    if same x name then some 0 else elim rest [ none ↦ none | some i ↦ some (suc i) ]

-- indexOrSkip
unfoldable pub index_or_skip : List Text → Text → Option ℕ
unfolding index_of
index_or_skip fields name = if is_empty name then none else index_of fields name

-- Observer.field; the list holds the first NExtras of the extras.
unfoldable pub field : List Text → Option ℕ → Text
field extras none = []
field extras (some i) = elim (get_elem? extras i) [ none ↦ [] | some s ↦ s ]

below_bound : (bound : ℕ) (s : Text) → 0 < bound → or_zero (parse_uint_below bound s) < bound
unfolding parse_uint_below
below_bound bound s pos = ground arith

digits-same-dash : (s : Text) → all is_digit s ≡ true → same s dash ≡ false
unfolding same
digits-same-dash [] h = refl
digits-same-dash (c ∷ s) h = ground arith

read_digits :
    (bound : ℕ) (s : Text)
    → all is_digit s ≡ true
    → is_empty s ≡ false
    → bound ≤ 2 ^ 64
    → (if is_empty s || same s dash then 0 else or_zero (parse_uint_below bound s))
      ≡ (if ltb (spelled s 0) bound then spelled s 0 else 0)
read_digits bound s digits nonempty le =
    rw (nonempty, digits-same-dash s digits, parse_uint_below_lem bound s digits nonempty le)
      (ground arith)

abbrev pub ParsedNumbers : Text → Type 0
ParsedNumbers s =
    (parse_status s < 2 ^ 16)
    × (parse_uint32 s < 2 ^ 32)
    × ((all is_digit s ≡ false)
        ⊎ ((is_empty s ≡ true)
            ⊎ ((parse_status s ≡ (if ltb (spelled s 0) (2 ^ 16) then spelled s 0 else 0))
                × (parse_uint32 s ≡ (if ltb (spelled s 0) (2 ^ 32) then spelled s 0 else 0)))))

-- A status always fits 16 bits and a size 32 bits. On digits, parseStatus and parseUint32 give the
-- number that they spell where it fits, and 0 where it does not.
pub parse_numbers_lem : (s : Text) → ParsedNumbers s
unfolding parse_status parse_uint32
parse_numbers_lem s = (
  ground (arith, below_bound (2 ^ 16) s (omega arith)),
  ground (arith, below_bound (2 ^ 32) s (omega arith)),
  elim (Bool-cases (all is_digit s)) [
    | inr d ↦ inl d
    | inl d ↦ elim (Bool-cases (is_empty s)) [
      | inl e ↦ inr (inl e)
      | inr e ↦
          inr (
            inr
              (read_digits (2 ^ 16) s d e (omega arith), read_digits (2 ^ 32) s d e (omega arith)))
    ]
  ],
)

abbrev pub Sanitized : Text → Text → Type 0
Sanitized s r = (length r ≤ max_request_id_len) × (same r dash ≡ false) × ((r ≡ s) ⊎ (r ≡ []))

-- A request id is shipped as logged or not at all: never one longer than 64 bytes, nor a dash.
pub sanitize_request_id_lem : (s : Text) → Sanitized s (sanitize_request_id s)
unfolding sanitize_request_id dash_to_empty same
sanitize_request_id_lem s = ground arith
