-- ===== src/Base/Numbers.antt =====
-- The decimal readers of Go's strconv. A sign, the digits, and the bound of the type are read in the
-- order of the library: a digit run past uint64 is a range error even if a bad byte follows.
use native.Mathlib.Omega.{arith}
use Prim.Native.Nat.{◌<◌, ◌≤◌, ℕ, ◌+◌, ◌-◌, ◌*◌, ◌^◌}
use topsrv.Base.Lists.{all}
use mathlib.Core.Path.{◌≡◌, refl}
use mathlib.Core.Logic.{◌⊎◌, inl, inr}
use topsrv.Base.Strings.{is_empty}
use mathlib.Core.Bool.{Bool, true, false, ◌&&◌}
use mathlib.Core.List.{[], ◌∷◌}
use mathlib.Core.Option.{Option, none, some}
use topsrv.Base.Tests.{and-true, ltb→lt, Bool-cases, eqb, leb, ltb, if◌then◌else◌}
use topsrv.Base.Strings.{Text}
use topsrv.Base.Int.{pos_part, neg_part, ℤ, pos, negsuc, sub_ℕ}

abbrev pub max_u64 : ℕ
max_u64 = 2 ^ 64 - 1

abbrev pub max_i64 : ℕ
max_i64 = 2 ^ 63 - 1

pub data Number : Type 0 where
  syntax_error : Number
  range_error : Number
  value : ℕ → Number

abbrev pub is_digit : ℕ → Bool
is_digit c = leb b'0' c && leb c b'9'

unfoldable pub scan_digits : Text → ℕ → Number
scan_digits [] n = value n
scan_digits (c ∷ s) n =
    let rest = scan_digits s (n * 10 + (c - b'0')) in
    if is_digit c
    then (if ltb max_u64 (n * 10 + (c - b'0')) then range_error else rest)
    else syntax_error

-- ParseUint(s, 10, 64)
unfoldable pub parse_uint : Text → Number
unfolding scan_digits
parse_uint [] = syntax_error
parse_uint (c ∷ s) = scan_digits (c ∷ s) 0

-- ParseUint(s, 10, bits), where none stands for either error
unfoldable pub parse_uint_below : ℕ → Text → Option ℕ
unfolding parse_uint
parse_uint_below bound s = elim (parse_uint s) [
  | value n ↦ if ltb n bound then some n else none
  | _ ↦ none
]

clamp : Bool → Number → ℤ × Bool
clamp negative syntax_error = (pos 0, false)
clamp false range_error = (pos max_i64, false)
clamp true range_error = (negsuc max_i64, false)
clamp false (value n) = if ltb max_i64 n then (pos max_i64, false) else (pos n, true)
clamp true (value n) = if ltb (2 ^ 63) n then (negsuc max_i64, false) else (sub_ℕ 0 n, true)

-- Atoi(s) and ParseInt(s, 10, 64): the value, which a range error clamps, and whether err is nil.
unfoldable pub atoi : Text → ℤ × Bool
unfolding parse_uint clamp
atoi [] = (pos 0, false)
atoi (c ∷ s) =
    if eqb c b'-'
    then clamp true (parse_uint s)
    else if eqb c b'+'
    then clamp false (parse_uint s)
    else clamp false (parse_uint (c ∷ s))

-- The number that a run of digits spells behind `n`.
abbrev pub spelled : Text → ℕ → ℕ
spelled [] n = n
spelled (c ∷ s) n = spelled s (n * 10 + (c - b'0'))

clamp_bounds :
    (b : Bool) (n : Number) → (pos_part (clamp b n).0 ≤ max_i64) × (neg_part (clamp b n).0 ≤ 2 ^ 63)
unfolding clamp
clamp_bounds false syntax_error = omega arith
clamp_bounds true syntax_error = omega arith
clamp_bounds false range_error = omega arith
clamp_bounds true range_error = omega arith
clamp_bounds false (value n) = ground arith
clamp_bounds true (value n) = ground arith

-- What Atoi returns is an int64, also where it reports an error.
pub atoi_bounds : (s : Text) → (pos_part (atoi s).0 ≤ max_i64) × (neg_part (atoi s).0 ≤ 2 ^ 63)
unfolding atoi
atoi_bounds [] = omega arith
atoi_bounds (c ∷ s) = elim (Bool-cases (eqb c b'-')) [
  | inl minus ↦ rw minus (clamp_bounds true (parse_uint s))
  | inr other ↦ rw other (elim (Bool-cases (eqb c b'+')) [
    | inl plus ↦ rw plus (clamp_bounds false (parse_uint s))
    | inr digit ↦ rw digit (clamp_bounds false (parse_uint (c ∷ s)))
  ])
]

spelled_grows : (s : Text) (n : ℕ) → n ≤ spelled s n
spelled_grows [] n = omega arith
spelled_grows (c ∷ s) n = omega (arith, spelled_grows s (n * 10 + (c - b'0')))

-- What a scan of digits gives: the number that they spell, or a range error above the bound.
scan_digits_lem :
    (s : Text) (n : ℕ)
    → all is_digit s ≡ true
    → n ≤ max_u64
    → ((scan_digits s n ≡ value (spelled s n)) × (spelled s n ≤ max_u64))
      ⊎ ((scan_digits s n ≡ range_error) × (max_u64 < spelled s n))
unfolding scan_digits
scan_digits_lem [] n digits le = inl (refl, le)
scan_digits_lem (c ∷ s) n digits le =
    let next = n * 10 + (c - b'0') in
    elim (Bool-cases (ltb max_u64 next)) [
      | inl t ↦
          rw ((and-true {a = is_digit c} {b = all is_digit s} digits).0, t)
            (inr (refl, omega (arith, ltb→lt max_u64 next t, spelled_grows s next)))
      | inr t ↦
          rw ((and-true {a = is_digit c} {b = all is_digit s} digits).0, t)
            (scan_digits_lem s next (and-true {a = is_digit c} {b = all is_digit s} digits).1
              (ground arith))
    ]

-- On digits the reader gives the number that they spell exactly when it is below the bound.
pub parse_uint_below_lem :
    (bound : ℕ) (s : Text)
    → all is_digit s ≡ true
    → is_empty s ≡ false
    → bound ≤ 2 ^ 64
    → parse_uint_below bound s ≡ (if ltb (spelled s 0) bound then some (spelled s 0) else none)
unfolding parse_uint_below parse_uint
parse_uint_below_lem bound [] digits nonempty le = absurd (ground arith)
parse_uint_below_lem bound (c ∷ s) digits nonempty le =
    elim (scan_digits_lem (c ∷ s) 0 digits (omega arith)) [
      | inl (e, small) ↦ rw (e, parse_uint_below) refl
      | inr (e, big) ↦ rw (e, parse_uint_below) (ground arith)
    ]
