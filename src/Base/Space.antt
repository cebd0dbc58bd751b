-- ===== src/Base/Space.antt =====
-- strings.TrimSpace and strings.Fields on UTF-8 bytes, and the lines of a bufio.Scanner.
use Prim.Native.Nat.{◌<◌, ℕ, zero, suc, ◌-◌}
use mathlib.Core.Path.{◌≡◌, refl}
use mathlib.Core.Bool.{Bool, true, false}
use mathlib.Core.List.{List, [], ◌∷◌, ◌++◌}
use native.Mathlib.Omega.{arith}
use topsrv.Base.Tests.{eqb, leb, if◌then◌else◌}
use topsrv.Base.Lists.{All, length}
use topsrv.Base.Strings.{lacks, split-append, Text, has_prefix, is_empty, split}

-- The white space of unicode.IsSpace, encoded: tab to carriage return, the blank, U+0085, U+00A0,
-- U+1680, U+2000 to U+200A, U+2028, U+2029, U+202F, U+205F and U+3000.
abbrev pub spaces : List Text
spaces =
    (9 ∷ [])
    ∷ (10 ∷ [])
    ∷ (11 ∷ [])
    ∷ (12 ∷ [])
    ∷ (13 ∷ [])
    ∷ (32 ∷ [])
    ∷ (194 ∷ 133 ∷ [])
    ∷ (194 ∷ 160 ∷ [])
    ∷ (225 ∷ 154 ∷ 128 ∷ [])
    ∷ (226 ∷ 128 ∷ 128 ∷ [])
    ∷ (226 ∷ 128 ∷ 129 ∷ [])
    ∷ (226 ∷ 128 ∷ 130 ∷ [])
    ∷ (226 ∷ 128 ∷ 131 ∷ [])
    ∷ (226 ∷ 128 ∷ 132 ∷ [])
    ∷ (226 ∷ 128 ∷ 133 ∷ [])
    ∷ (226 ∷ 128 ∷ 134 ∷ [])
    ∷ (226 ∷ 128 ∷ 135 ∷ [])
    ∷ (226 ∷ 128 ∷ 136 ∷ [])
    ∷ (226 ∷ 128 ∷ 137 ∷ [])
    ∷ (226 ∷ 128 ∷ 138 ∷ [])
    ∷ (226 ∷ 128 ∷ 168 ∷ [])
    ∷ (226 ∷ 128 ∷ 169 ∷ [])
    ∷ (226 ∷ 128 ∷ 175 ∷ [])
    ∷ (226 ∷ 129 ∷ 159 ∷ [])
    ∷ (227 ∷ 128 ∷ 128 ∷ [])
    ∷ []

abbrev pub reverse_onto : {A : Type 0} → List A → List A → List A
reverse_onto [] acc = acc
reverse_onto (x ∷ xs) acc = reverse_onto xs (x ∷ acc)

abbrev pub reverse_all : List Text → List Text
reverse_all [] = []
reverse_all (t ∷ ts) = reverse_onto t [] ∷ reverse_all ts

-- How long the code point of the list is that a text starts with; 0 for none.
unfoldable pub space_len : List Text → Text → ℕ
unfolding has_prefix
space_len [] s = 0
space_len (e ∷ es) s = if has_prefix e s then length e else space_len es s

-- The number counts the bytes of a code point that are still to be dropped.
unfoldable pub trim_from : List Text → ℕ → Text → Text
unfolding space_len
trim_from es n [] = []
trim_from es (suc n) (c ∷ s) = trim_from es n s
trim_from es zero (c ∷ s) =
    let n = space_len es (c ∷ s) in
    let rest = trim_from es (n - 1) s in if eqb n 0 then c ∷ s else rest

-- strings.TrimLeftFunc and TrimRightFunc by unicode.IsSpace
unfoldable pub trim_left : Text → Text
unfolding trim_from
trim_left s = trim_from spaces 0 s

unfoldable pub trim_right : Text → Text
unfolding trim_from
trim_right s = reverse_onto (trim_from (reverse_all spaces) 0 (reverse_onto s [])) []

unfoldable pub trim_space : Text → Text
unfolding trim_left trim_right
trim_space s = trim_right (trim_left s)

-- A blank in front does not change what TrimSpace gives.
pub trim_space-blank : (s : Text) → trim_space (32 ∷ s) ≡ trim_space s
unfolding trim_space
trim_space-blank s = refl

unfoldable pub words_from : ℕ → Text → Text → List Text
words_from n [] word = if is_empty word then [] else word ∷ []
words_from (suc n) (c ∷ s) word = words_from n s word
words_from zero (c ∷ s) word =
    let n = space_len spaces (c ∷ s) in
    let more = words_from 0 s (word ++ (c ∷ [])) in
    let rest = words_from (n - 1) s [] in
    if eqb n 0 then more else if is_empty word then rest else word ∷ rest

-- strings.Fields
unfoldable pub words : Text → List Text
words s = words_from 0 s []

-- One carriage return at the end of a line is dropped.
abbrev pub drop_cr : Text → Text
drop_cr [] = []
drop_cr (c ∷ []) = if eqb c 13 then [] else c ∷ []
drop_cr (c ∷ d ∷ s) = c ∷ drop_cr (d ∷ s)

unfoldable pub lines_of : ℕ → List Text → List Text × Bool
lines_of limit [] = ([], true)
lines_of limit (l ∷ []) =
    if is_empty l
    then ([], true)
    else if leb limit (length l)
    then ([], false)
    else (drop_cr l ∷ [], true)
lines_of limit (l ∷ m ∷ ls) =
    let (rest, ok) = lines_of limit (m ∷ ls) in
    if leb limit (length l) then ([], false) else (drop_cr l ∷ rest, ok)

-- The lines that bufio.Scanner gives with a buffer of `limit` bytes, and whether Err is nil: a line
-- that fills the buffer ends the scan. Reading is taken not to fail.
unfoldable pub scan_lines : ℕ → Text → List Text × Bool
scan_lines limit s = lines_of limit (split 10 s)

-- Every line with a newline behind it.
abbrev pub unlines : List Text → Text
unlines [] = []
unlines (l ∷ ls) = l ++ (10 ∷ unlines ls)

-- A line that the scanner gives back as it stands.
abbrev pub IsLine : ℕ → Text → Type 0
IsLine limit l = (lacks 10 l ≡ true) × (drop_cr l ≡ l) × (length l < limit)

split-unlines :
    (limit : ℕ) (ls : List Text) → All (IsLine limit) ls → split 10 (unlines ls) ≡ ls ++ ([] ∷ [])
unfolding split
split-unlines limit [] h = refl
split-unlines limit (l ∷ ls) ((nl, cr, len), h) =
    rw (split-append 10 l (unlines ls) nl, split-unlines limit ls h) refl

lines_of-append :
    (limit : ℕ) (ls : List Text)
    → All (IsLine limit) ls
    → lines_of limit (ls ++ ([] ∷ [])) ≡ (ls, true)
unfolding lines_of
lines_of-append limit [] h = refl
lines_of-append limit (l ∷ []) ((nl, cr, len), h) =
    let e : leb limit (length l) ≡ false = ground (arith, len) in rw (e, cr) refl
lines_of-append limit (l ∷ m ∷ ls) ((nl, cr, len), h) =
    let e : leb limit (length l) ≡ false = ground (arith, len) in
    rw (e, cr, lines_of-append limit (m ∷ ls) h) refl

-- The scanner gives back lines that fit in its buffer.
pub scan_lines-unlines :
    (limit : ℕ) (ls : List Text)
    → All (IsLine limit) ls
    → scan_lines limit (unlines ls) ≡ (ls, true)
unfolding scan_lines
scan_lines-unlines limit ls h = rw (split-unlines limit ls h) (lines_of-append limit ls h)
