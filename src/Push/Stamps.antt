-- ===== src/Push/Stamps.antt =====
-- The names of spool files: of two times in milliseconds, the earlier one names the lesser file.
use native.Mathlib.Decide.{dec_lt}
use topsrv.Base.{
  refl, false, ltb, ◌%◌, true, ◌+◌, ◌∷◌, zero, ◌∙◌, ◌≤◌, ◌++◌, arith, ◌/◌, ◌*◌, [], ◌≡◌, ◌<◌, suc,
  text_lt, ◌^◌, Text, ℕ,
}
use topsrv.Push.State.{digits, decimal}
use topsrv.Push.{file_name}

abbrev bound : ℕ → ℕ
bound zero = 1
bound (suc k) = 10 * bound k

bound-pos : (k : ℕ) → 0 < bound k
bound-pos zero = omega arith
bound-pos (suc k) = omega (arith, bound-pos k)

-- The last k digits of n, in front of a text.
fixed : ℕ → ℕ → Text → Text
fixed zero n acc = acc
fixed (suc k) n acc = fixed k (n / 10) ((b'0' + n % 10) ∷ acc)

digits-fixed :
    (k fuel n : ℕ) (acc : Text)
    → bound k ≤ n
    → n < bound (suc k)
    → k < fuel
    → digits fuel n acc ≡ fixed (suc k) n acc
unfolding digits fixed
digits-fixed zero zero n acc lo hi f = absurd (omega arith)
digits-fixed zero (suc fuel) n acc lo hi f = ground arith
digits-fixed (suc k) zero n acc lo hi f = absurd (omega arith)
digits-fixed (suc k) (suc fuel) n acc lo hi f =
    let ih =
      digits-fixed k fuel (n / 10) ((b'0' + n % 10) ∷ acc) (omega arith) (omega arith)
        (omega arith) in
    let big : ltb n 10 ≡ false = ground (arith, bound-pos k) in rw big ih

fixed-same : (k n : ℕ) (s t : Text) → text_lt (fixed k n s) (fixed k n t) ≡ text_lt s t
unfolding fixed text_lt
fixed-same zero n s t = refl
fixed-same (suc k) n s t = fixed-same k (n / 10) _ _ ∙ ground arith

fixed-lt :
    (k a b : ℕ) (s t : Text) → a < b → b < bound k → text_lt (fixed k a s) (fixed k b t) ≡ true
unfolding fixed
fixed-lt zero a b s t h lt = absurd (omega arith)
fixed-lt (suc k) a b s t h lt = elim (dec_lt (a / 10) (b / 10)) [
  | yes p ↦ fixed-lt k (a / 10) (b / 10) _ _ p (omega arith)
  | no p ↦
      let e : a / 10 ≡ b / 10 = omega arith in
      let d : a % 10 < b % 10 = omega arith in
      rw (e, fixed-same k (b / 10)) (unfold text_lt in ground (arith, d))
]

fixed-append : (k n : ℕ) (s t : Text) → fixed k n s ++ t ≡ fixed k n (s ++ t)
unfolding fixed
fixed-append zero n s t = refl
fixed-append (suc k) n s t = fixed-append k (n / 10) _ t

-- Unix milliseconds of 13 digits: from 2001 to 2286.
abbrev pub IsStamp : ℕ → Type 0
IsStamp ms = (10 ^ 12 ≤ ms) × (ms < 10 ^ 13)

file_name-fixed :
    (ms : ℕ) (ext : Text) → IsStamp ms → file_name [] ms ext ≡ fixed 13 ms (b'.' ∷ ext)
unfolding decimal
file_name-fixed ms ext (lo, hi) =
    rw (digits-fixed 12 19 ms [] (omega arith) (omega arith) (omega arith))
      (fixed-append 13 ms [] (b'.' ∷ ext))

pub file_name-lt :
    (a b : ℕ) (ext : Text)
    → IsStamp a
    → IsStamp b
    → a < b
    → text_lt (file_name [] a ext) (file_name [] b ext) ≡ true
file_name-lt a b ext ha hb lt =
    rw (file_name-fixed a ext ha, file_name-fixed b ext hb)
      (fixed-lt 13 a b (b'.' ∷ ext) (b'.' ∷ ext) lt (omega (arith, hb)))
