-- ===== src/Runes.antt =====
-- internal/topsrv/text.go: cutting a text at a byte budget without cutting a character.
mod Tests
use topsrv.Base.{
  length-take, take_all, sym, ℕ, zero, suc, Bool, true, false, not, ◌&&◌, Text, [], none, some,
  length, take, get_elem?, leb, ltb, if◌then◌else◌, ◌≡◌, ◌≤◌, ◌<◌, ◌⊎◌, inl, inr, refl, arith,
  Bool-cases,
}

-- utf8.RuneStart: any byte but 10xxxxxx.
abbrev pub rune_start : ℕ → Bool
rune_start b = not (leb 128 b && ltb b 192)

-- Whether a character may begin at the index, which is in range where it is asked.
abbrev pub starts_at : Text → ℕ → Bool
starts_at s n = elim (get_elem? s n) [ none ↦ true | some b ↦ rune_start b ]

-- The loop: down to the nearest start of a character.
unfoldable pub back : Text → ℕ → ℕ
back s zero = 0
back s (suc n) = let rest = back s n in if starts_at s (suc n) then suc n else rest

-- A limit of 0 stands for all that is not positive.
unfoldable pub truncate_at_rune : Text → ℕ → Text
unfolding back
truncate_at_rune s n = if leb (length s) n then s else if leb n 0 then [] else take (back s n) s

le_suc : (j n : ℕ) → j ≤ suc n → (j ≤ n) ⊎ (j ≡ suc n)
le_suc j n le = ground arith

back_lem :
    (s : Text) (n : ℕ)
    → (back s n ≤ n)
      × ((back s n ≡ 0) ⊎ (starts_at s (back s n) ≡ true))
      × ((j : ℕ) → back s n < j → j ≤ n → starts_at s j ≡ false)
unfolding back
back_lem s zero = (omega arith, inl refl, λ j lt le. absurd (omega arith))
back_lem s (suc n) = elim (Bool-cases (starts_at s (suc n))) [
  | inl t ↦ rw (t, back) (omega arith, inr t, λ j lt le. absurd (omega arith))
  | inr t ↦
      let (bound, start, skipped) = back_lem s n in
      rw (t, back)
        (
          omega (arith, bound),
          start,
          λ j lt le. elim (le_suc j n le) [ inl h ↦ skipped j lt h | inr h ↦ rw h t ],
        )
]

-- Where the text is cut: at its end, or within the limit at the last place where a character starts.
pub record CutAt (s : Text) (n : ℕ) (r : Text) : Type 0 where
  pub at : ℕ
  pub prefix : r ≡ take at s
  pub budget : length r ≤ n
  pub whole : (r ≡ s) ⊎ ((at ≡ 0) ⊎ (starts_at s at ≡ true))
  pub longest : (r ≡ s) ⊎ ((j : ℕ) → at < j → j ≤ n → starts_at s j ≡ false)

-- TruncateAtRune keeps a prefix of at most n bytes. Unless it keeps all, the prefix ends where a
-- character starts, and no longer one within the limit does.
pub truncate_at_rune-CutAt : (s : Text) (n : ℕ) → CutAt s n (truncate_at_rune s n)
truncate_at_rune-CutAt s n = elim (Bool-cases (leb (length s) n)) [
  | inl t ↦
      unfold truncate_at_rune in
      rw (t, truncate_at_rune)
        (record {
          at = length s;
          prefix = sym (take_all (length s) s (omega arith));
          budget = ground arith;
          whole = inl refl;
          longest = inl refl;
        })
  | inr t ↦ elim (Bool-cases (leb n 0)) [
    | inl u ↦
        unfold truncate_at_rune in
        rw (t, truncate_at_rune, u)
          (record {
            at = 0;
            prefix = refl;
            budget = omega arith;
            whole = inr (inl refl);
            longest = inr (λ j lt le. absurd (ground arith));
          })
    | inr u ↦
        let (bound, start, skipped) = back_lem s n in
        unfold truncate_at_rune in
        rw (t, truncate_at_rune, u)
          (record {
            at = back s n;
            prefix = refl;
            budget = omega (arith, length-take (back s n) s);
            whole = inr start;
            longest = inr skipped;
          })
  ]
]
