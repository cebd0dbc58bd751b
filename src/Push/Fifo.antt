-- ===== src/Push/Fifo.antt =====
-- The spool directory of internal/topsrv/push.go as a queue of payloads.
pub mod Frame
pub mod Retry
pub mod Store
pub mod Stored
pub mod Steps
pub mod Run
use topsrv.Base.{
  refl, inr, none, inl, [], ◌-◌, length, some, suc, ◌≡◌, ◌++◌, Bool-cases, if◌then◌else◌, drop, All,
  ◌∷◌, map, Option, Bool, List, ℕ,
}

-- A queue under a server that takes the n-th request or not: the oldest is offered first, and the
-- first refusal ends the round.
unfoldable pub resend : {A : Type 0} → (ℕ → Bool) → List A → ℕ → List A × ℕ
resend up [] n = ([], n)
resend up (b ∷ q) n = let rest = resend up q (suc n) in if up n then rest else (b ∷ q, suc n)

-- The 100 last of a queue.
abbrev pub newest : {A : Type 0} → List A → List A
newest q = drop (length q - 100) q

-- A fresh payload is offered once, and queued at the end where it is refused.
unfoldable pub offer : {A : Type 0} → (ℕ → Bool) → A → List A × ℕ → List A
offer up body (q, n) = if up n then q else newest (q ++ (body ∷ []))

unfoldable pub tick : {A : Type 0} → (ℕ → Bool) → Option A → List A → List A
unfolding resend offer
tick up none q = (resend up q 0).0
tick up (some body) q = offer up body (resend up q 0)

module _ {A B : Type 0} (f : A → B) (up : ℕ → Bool) where
  pub resend-map :
      (q : List A) (n : ℕ) → resend up (map f q) n ≡ (map f (resend up q n).0, (resend up q n).1)
  unfolding resend
  resend-map [] n = refl
  resend-map (b ∷ q) n = elim (Bool-cases (up n)) [
    | inl e ↦ rw e (resend-map q (suc n))
    | inr e ↦ rw e refl
  ]

module _ {A : Type 0} (P : A → Type 0) (up : ℕ → Bool) where
  pub All-resend : (q : List A) (n : ℕ) → All P q → All P (resend up q n).0
  unfolding resend
  All-resend [] n h = tt
  All-resend (b ∷ q) n (h, k) = elim (Bool-cases (up n)) [
    | inl e ↦ rw e (All-resend q (suc n) k)
    | inr e ↦ rw e (h, k)
  ]
