-- ===== src/Updater/Version/Order.antt =====
-- compareVersionedNames is the order of the version numbers.
use topsrv.Base.{
  ℕ, ◌≤◌, false, List, [], ◌∷◌, Text, ℤ, is_negative, is_empty, atoi, atoi_bounds, pos_part,
  neg_part, split, text_lt, ◌≡◌, All, arith, map, sub_ℕ, sub_int64, max_i64,
}
use topsrv.Updater.Version.{older, extract_version, compare_parts, compare_versioned_names}

-- The number of a segment, as the code reads it.
abbrev pub number : Text → ℕ
number p = pos_part (atoi p).0

abbrev pub release : Text → List ℕ
release name = map number (split b'.' (extract_version name))

abbrev pub IsCount : Text → Type 0
IsCount p = neg_part (atoi p).0 ≡ 0

-- A backup name that holds a version, no segment of which reads as a negative number.
abbrev pub IsPlain : Text → Type 0
IsPlain name =
    (is_empty (extract_version name) ≡ false) × All IsCount (split b'.' (extract_version name))

difference :
    (a b : ℤ)
    → neg_part a ≡ 0
    → neg_part b ≡ 0
    → pos_part a ≤ max_i64
    → pos_part b ≤ max_i64
    → sub_int64 a b ≡ sub_ℕ (pos_part a) (pos_part b)
unfolding sub_int64
difference a b na nb la lb = ground arith

parts-lex :
    (xs ys : List Text)
    → All IsCount xs
    → All IsCount ys
    → is_negative (compare_parts xs ys) ≡ text_lt (map number xs) (map number ys)
unfolding compare_parts text_lt
parts-lex [] [] hx hy = ground arith
parts-lex [] (y ∷ ys) hx hy = ground arith
parts-lex (x ∷ xs) [] hx hy = ground arith
parts-lex (x ∷ xs) (y ∷ ys) (hx, hxs) (hy, hys) = ground (
  arith,
  parts-lex xs ys hxs hys,
  atoi_bounds x,
  atoi_bounds y,
  difference (atoi x).0 (atoi y).0 hx hy (atoi_bounds x).0 (atoi_bounds y).0,
)

-- Of two backup names that hold versions, the code takes the one for older whose segments come first
-- in the order of numbers, segment by segment, where a proper prefix comes first (so 0.0.9 is older
-- than 0.0.10): no difference of segments wraps around.
pub older-lex : (a b : Text) → IsPlain a → IsPlain b → older a b ≡ text_lt (release a) (release b)
unfolding compare_versioned_names
older-lex a b (va, ha) (vb, hb) =
    rw (va, vb) (parts-lex (split b'.' (extract_version a)) (split b'.' (extract_version b)) ha hb)
