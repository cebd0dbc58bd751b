-- ===== src/Botlog/Match.antt =====
-- MatchUA of internal/topsrv/botlog/ua.go: the family and the subtype of a user agent.
use topsrv.Base.{
  same_eq, and-true, all-All, all, Bool, has_prefix, subst, true, false, not, ◌&&◌, ◌||◌, List, [],
  ◌∷◌, ◌++◌, Text, codes, contains, same, is_empty, if◌then◌else◌, ◌≡◌, ◌⊎◌, inl, inr, refl, sym,
  ap, arith, All, Bool-cases,
}
use topsrv.Botlog.Bots.{BotPattern, known_bots}

abbrev pub custom : Text
custom = codes "custom"

unfoldable pub refine_subtype : Text → Text → Text → Text
refine_subtype family name ua =
    if same family (codes "google") && same name (codes "googlebot")
    then (if contains (codes "Mobile") ua || contains (codes "Android") ua
        then codes "googlebot-smartphone"
        else codes "googlebot-desktop")
    else name

-- The loop over knownBots.
unfoldable pub match_known : Text → List BotPattern → Text × Text
unfolding refine_subtype
match_known ua [] = ([], [])
match_known ua (b ∷ bots) =
    let rest = match_known ua bots in
    if contains b.pat ua then (b.family, refine_subtype b.family b.name ua) else rest

-- The loop over extraPatterns, and what comes after it.
unfoldable pub match_extra : Text → List Text → Text × Text
unfolding match_known
match_extra ua [] = match_known ua known_bots
match_extra ua (p ∷ patterns) =
    let rest = match_extra ua patterns in
    if is_empty p then rest else if contains p ua then (custom, p) else rest

unfoldable pub match_ua : Text → List Text → Text × Text
unfolding match_extra
match_ua ua patterns = if is_empty ua then ([], []) else match_extra ua patterns

-- The first of the patterns that a user agent holds.
pub data First (ua : Text) : List BotPattern → BotPattern → Type 0 where
  here :
      (b : BotPattern) (bots : List BotPattern) → contains b.pat ua ≡ true → First ua (b ∷ bots) b
  later :
      (b c : BotPattern) (bots : List BotPattern)
      → contains c.pat ua ≡ false
      → First ua bots b
      → First ua (c ∷ bots) b

match_known_lem :
    (ua : Text) (bots : List BotPattern)
    → ((b : BotPattern) × First ua bots b
        × (match_known ua bots ≡ (b.family, refine_subtype b.family b.name ua)))
      ⊎ (All (λ c. contains c.pat ua ≡ false) bots × (match_known ua bots ≡ ([], [])))
unfolding match_known
match_known_lem ua [] = inr (tt, refl)
match_known_lem ua (c ∷ bots) = elim (Bool-cases (contains c.pat ua)) [
  | inl t ↦ inl (c, here c bots t, rw t refl)
  | inr t ↦ elim (match_known_lem ua bots) [
    | inl (b, first, e) ↦ inl (b, later b c bots t first, rw t e)
    | inr (none_of, e) ↦ inr ((t, none_of), rw t e)
  ]
]

-- No pattern of an operator is held by the user agent; an empty one counts for none.
abbrev pub NoneOf : Text → List Text → Type 0
NoneOf ua patterns = All (λ p. (is_empty p || not (contains p ua)) ≡ true) patterns

-- What MatchUA may answer.
abbrev pub Matched : Text → List Text → Text × Text → Type 0
Matched ua patterns r =
    ((p : Text) × (before : List Text) × (after : List Text) × (patterns ≡ before ++ p ∷ after)
      × NoneOf ua before
      × (is_empty p ≡ false)
      × (contains p ua ≡ true)
      × (r ≡ (custom, p)))
    ⊎ ((NoneOf ua patterns
          × (b : BotPattern) × First ua known_bots b
          × (r ≡ (b.family, refine_subtype b.family b.name ua)))
        ⊎ (NoneOf ua patterns × All (λ c. contains c.pat ua ≡ false) known_bots × (r ≡ ([], []))))

Matched-skip :
    (ua p : Text) (patterns : List Text) (r : Text × Text)
    → (is_empty p || not (contains p ua)) ≡ true
    → Matched ua patterns r
    → Matched ua (p ∷ patterns) r
Matched-skip ua p patterns r t (inl (q, before, after, e, none_of, some, held, r_eq)) =
    inl (q, p ∷ before, after, ap (λ l. p ∷ l) e, (t, none_of), some, held, r_eq)
Matched-skip ua p patterns r t (inr (inl (none_of, b, first, e))) =
    inr (inl ((t, none_of), b, first, e))
Matched-skip ua p patterns r t (inr (inr (none_of, known, e))) = inr (inr ((t, none_of), known, e))

match_extra_skip :
    (ua p : Text) (patterns : List Text)
    → (is_empty p || not (contains p ua)) ≡ true
    → match_extra ua (p ∷ patterns) ≡ match_extra ua patterns
unfolding match_extra
match_extra_skip ua p patterns t = ground arith

match_extra_take :
    (ua p : Text) (patterns : List Text)
    → (is_empty p || not (contains p ua)) ≡ false
    → match_extra ua (p ∷ patterns) ≡ (custom, p)
unfolding match_extra
match_extra_take ua p patterns t = ground arith

match_extra_lem : (ua : Text) (patterns : List Text) → Matched ua patterns (match_extra ua patterns)
unfolding match_extra
match_extra_lem ua [] = elim (match_known_lem ua known_bots) [
  | inl (b, first, e) ↦ inr (inl (tt, b, first, e))
  | inr (none_of, e) ↦ inr (inr (tt, none_of, e))
]
match_extra_lem ua (p ∷ patterns) = elim (Bool-cases (is_empty p || not (contains p ua))) [
  | inl t ↦
      subst (λ r. Matched ua (p ∷ patterns) r) (sym (match_extra_skip ua p patterns t))
        (Matched-skip ua p patterns _ t (match_extra_lem ua patterns))
  | inr t ↦
      subst (λ r. Matched ua (p ∷ patterns) r) (sym (match_extra_take ua p patterns t))
        (inl (p, [], patterns, refl, tt, ground arith, ground arith, refl))
]

-- For a user agent that is not empty, MatchUA names the first pattern of the operator that the user agent holds, as a custom one; with
-- none of these it names the first entry of the list that the user agent holds, with the subtype
-- refined; with none of those nothing.
pub match_ua_lem :
    (ua : Text) (patterns : List Text)
    → is_empty ua ≡ false
    → Matched ua patterns (match_ua ua patterns)
match_ua_lem ua patterns some = unfold match_ua in rw (some, match_ua) (match_extra_lem ua patterns)

-- The entry is the one that its own pattern leads to.
abbrev lives : BotPattern → Bool
lives b =
    let (family, name) = match_ua b.pat [] in
    same family b.family && same name (refine_subtype b.family b.name b.pat)

all_live : all lives known_bots ≡ true
unfolding match_ua match_extra match_known refine_subtype contains has_prefix same
all_live = refl

lives_lem :
    (b : BotPattern)
    → lives b ≡ true
    → match_ua b.pat [] ≡ (b.family, refine_subtype b.family b.name b.pat)
lives_lem b h =
    let both = and-true h in
    λ i. (
      same_eq (match_ua b.pat []).0 b.family both.0 i,
      same_eq (match_ua b.pat []).1 (refine_subtype b.family b.name b.pat) both.1 i,
    )

-- No entry of the list is hidden behind an earlier one: the pattern of every entry, taken as a user
-- agent, is reported with the family and the refined subtype of that entry.
pub known_bots_live :
    All (λ b. match_ua b.pat [] ≡ (b.family, refine_subtype b.family b.name b.pat)) known_bots
known_bots_live = all-All lives _ lives_lem known_bots all_live
