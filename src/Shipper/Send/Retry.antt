-- ===== src/Shipper/Send/Retry.antt =====
-- How often a batch is sent.
use topsrv.Base.{
  ◌+◌, ◌≡◌, ◌⊎◌, true, false, ◌||◌, none, some, refl, arith, Bool-cases, Option-cases, inl, inr,
}
use topsrv.Shipper.State.{Pusher, Env}
use topsrv.Shipper.Send.{
  SendError, is_permanent_failure, count_error, error_of, send, retry, send_with_retry,
}
use topsrv.Shipper.Frame.{Kept-refl, Kept-trans, Kept}

module _ {E : Type 0} (env : Env) where
  pub send-Kept : (p : Pusher E) → Kept p (send env p).0
  unfolding send count_error
  send-Kept p = ground arith

  retry-Kept : (e : SendError) (p : Pusher E) → Kept p (retry env e p).0
  unfolding retry
  retry-Kept e p = ground (arith, send-Kept p, Kept-refl p)

  pub send_with_retry-Kept : (p : Pusher E) → Kept p (send_with_retry env p).0
  send_with_retry-Kept p = elim (Option-cases (send env p).1) [
    | inl e ↦ unfold send_with_retry in rw (e, send_with_retry) (send-Kept p)
    | inr (err, e) ↦
        unfold send_with_retry in
        rw (e, send_with_retry)
          (Kept-trans p (send env p).0 (retry env err (send env p).0).0 (send-Kept p)
            (retry-Kept err (send env p).0))
  ]

  pub send_lem :
      (p : Pusher E)
      → ((send env p).0.sends ≡ p.sends + 1) × ((send env p).1 ≡ error_of (env.response p.sends))
  unfolding send
  send_lem p = (refl, refl)

  -- One request, or a second one after a failure that may pass.
  abbrev pub SentTwiceAtMost : Pusher E → Type 0
  SentTwiceAtMost p =
      let (q, err) = send_with_retry env p in
      let first = error_of (env.response p.sends) in
      ((q.sends ≡ p.sends + 1)
        × (err ≡ first)
        × ((first ≡ none)
            ⊎ ((e : SendError) × (first ≡ some e)
                × ((is_permanent_failure e || env.cancelled (p.sends + 1)) ≡ true))))
      ⊎ ((e : SendError) × (first ≡ some e)
          × ((is_permanent_failure e || env.cancelled (p.sends + 1)) ≡ false)
          × (q.sends ≡ p.sends + 2)
          × (err ≡ error_of (env.response (p.sends + 1))))

  -- A batch is sent at most twice. There is no second request if the first one worked, if it failed
  -- for good, or if the context is done when the backoff ends; what is reported is the result of the
  -- last request.
  pub send_with_retry_lem : (p : Pusher E) → SentTwiceAtMost p
  unfolding send_with_retry send
  send_with_retry_lem p = elim (Option-cases (error_of (env.response p.sends))) [
    | inl e ↦ inl (rw (e, send_with_retry) (refl, refl, inl refl))
    | inr (err, e) ↦ elim (Bool-cases (is_permanent_failure err || env.cancelled (p.sends + 1))) [
      | inl stop ↦ inl (unfold send retry in (ground arith, ground arith, inr (err, e, stop)))
      | inr again ↦ inr (unfold send retry in (err, e, again, ground arith, ground arith))
    ]
  ]
