-- ===== src/Shipper/Run/Drain.antt =====
-- The shutdown of the shipper: drainAndFlushAll gives up nothing that is in the batch or the queue.
use topsrv.Shipper.State.{Options}
use topsrv.Base.{
  zero, subst, sym, ap, List-cases, suc, min, ◌+◌, Bool, ◌<◌, All, flatten, Text, Option, inr,
  append_assoc, length-append, ltb, inl, Bool-cases, ℕ, ◌≡◌, ◌∙◌, ◌⊎◌, ◌≤◌, List, [], ◌∷◌, ◌++◌,
  refl, arith, length,
}
use topsrv.Shipper.Frame.{Framed}
use topsrv.Shipper.Run.Flush.{flush_final-Framed}
use topsrv.Shipper.Run.{
  drain_and_flush_all, flush_final, drain_loop, Env, Pusher, sum_lengths, drain_queue,
}

pub drain_queue-append :
    {E : Type 0} (size : ℕ) (batch queue : List E)
    → (drain_queue size batch queue).0 ++ (drain_queue size batch queue).1 ≡ batch ++ queue
unfolding drain_queue
drain_queue-append size batch [] = refl
drain_queue-append size batch (ev ∷ queue) = elim (Bool-cases (ltb (length batch) size)) [
  | inl t ↦
      rw t (drain_queue-append size (batch ++ ev ∷ []) queue ∙ append_assoc batch (ev ∷ []) queue)
  | inr t ↦ rw t refl
]

-- A part of the queue stays only behind a full batch.
pub drain_queue-full :
    {E : Type 0} (size : ℕ) (batch queue : List E)
    → length batch ≤ size
    → (length (drain_queue size batch queue).0 ≤ size)
      × (((drain_queue size batch queue).1 ≡ []) ⊎ (length (drain_queue size batch queue).0 ≡ size))
unfolding drain_queue
drain_queue-full size batch [] h = (h, inl refl)
drain_queue-full size batch (ev ∷ queue) h = elim (Bool-cases (ltb (length batch) size)) [
  | inl t ↦ rw t (
      drain_queue-full size (batch ++ ev ∷ []) queue
        (ground (arith, length-append batch (ev ∷ []))))
  | inr t ↦ rw t (h, inr (ground arith))
]

pub drain_queue-shorter :
    {E : Type 0} (size : ℕ) (batch queue : List E)
    → length (drain_queue size batch queue).1 ≤ length queue
unfolding drain_queue
drain_queue-shorter size batch [] = omega arith
drain_queue-shorter size batch (ev ∷ queue) = elim (Bool-cases (ltb (length batch) size)) [
  | inl t ↦ rw t (omega (arith, drain_queue-shorter size (batch ++ ev ∷ []) queue))
  | inr t ↦ rw t (omega arith)
]

-- What the shutdown has done once it ends.
pub record Drained {E : Type 0} (batch : List E) (p q : Pusher E) (done : List (List E))
    : Type 0 where
  pub whole : flatten done ≡ batch ++ p.queue  -- in order, nothing left out, nothing twice
  pub bounded : All (λ b. (0 < length b) × (length b ≤ p.cfg.batch_size)) done
  pub emptied : q.queue ≡ []
  pub cfg : q.cfg ≡ p.cfg
  pub enqueued : q.counters.enqueued ≡ p.counters.enqueued
  pub queue_full : q.counters.drop_queue_full ≡ p.counters.drop_queue_full

sum_lengths_lem : {E : Type 0} (bs : List (List E)) → sum_lengths bs ≡ length (flatten bs)
unfolding sum_lengths
sum_lengths_lem [] = refl
sum_lengths_lem (b ∷ bs) = omega (arith, sum_lengths_lem bs, length-append b (flatten bs))

pub rest_fewer :
    {E : Type 0} (size : ℕ) (batch queue b rest : List E) (fuel : ℕ)
    → 0 < size
    → 0 < length b
    → length batch ≤ size
    → length queue + min 1 (length batch) < suc fuel
    → b ++ rest ≡ batch ++ queue
    → (rest ≡ []) ⊎ (length b ≡ size)
    → length rest + 0 < fuel
rest_fewer size batch queue b rest fuel pos some le enough whole full =
    let total = sym (length-append b rest) ∙ ap length whole ∙ length-append batch queue in
    elim full [ inl e ↦ (let empty = ap length e in omega arith) | inr e ↦ omega arith ]

module _ {E : Type 0} (encode : List E → Option Text) (env : Env) (over : ℕ → Bool) where
  drained_lem :
      (batch : List E) (p p' r : Pusher E) (queue b : List E) (done : List (List E))
      → b ++ queue ≡ batch ++ p.queue
      → (0 < length b) × (length b ≤ p.cfg.batch_size)
      → Framed (record p { queue = queue }) p'
      → Drained [] p' r done
      → Drained batch p r (b ∷ done)
  drained_lem batch p p' r queue b done whole bounds framed h = record {
    whole = ap (λ t. b ++ t) (h.whole ∙ framed.queue) ∙ whole;
    bounded = (
      bounds,
      subst (λ (c : Options). All (λ b. (0 < length b) × (length b ≤ c.batch_size)) done) framed.cfg
          h.bounded,
    );
    emptied = h.emptied;
    cfg = h.cfg ∙ framed.cfg;
    enqueued = h.enqueued ∙ framed.enqueued;
    queue_full = h.queue_full ∙ framed.queue_full;
  }

  pub drain_loop-Drained :
      (fuel : ℕ) (batch : List E) (p : Pusher E)
      → 0 < p.cfg.batch_size
      → length batch ≤ p.cfg.batch_size
      → length p.queue + min 1 (length batch) < fuel
      → Drained batch p
          (drain_loop encode env over fuel batch p).0
          (drain_loop encode env over fuel batch p).1
  unfolding drain_loop
  drain_loop-Drained zero batch p pos le enough = absurd (omega arith)
  drain_loop-Drained (suc fuel) batch p pos le enough =
      let size = p.cfg.batch_size in
      let rest = (drain_queue size batch p.queue).1 in
      let whole = drain_queue-append size batch p.queue in
      let full = drain_queue-full size batch p.queue le in
      elim (List-cases (drain_queue size batch p.queue).0) [
        | inl e ↦
            let none_left : rest ≡ [] = elim full.1 [
              | inl f ↦ f
              | inr f ↦ absurd (ground (arith, ap length e))
            ] in
            rw (e, drain_loop)
              (record {
                whole = rw (sym whole, e, none_left) refl;
                bounded = tt;
                emptied = none_left;
                cfg = refl;
                enqueued = refl;
                queue_full = refl;
              })
        | inr (ev, (evs, e)) ↦
            let p' = flush_final encode env (over p.sends) (ev ∷ evs) (record p { queue = rest }) in
            let framed =
              flush_final-Framed encode env (over p.sends) (ev ∷ evs) (record p { queue = rest }) in
            rw (e, drain_loop)
              (drained_lem batch p p' _ rest (ev ∷ evs) _ (ap (λ b. b ++ rest) (sym e) ∙ whole)
                (omega arith, subst (λ b. length b ≤ size) e full.0) framed
                (drain_loop-Drained fuel [] p' (rw framed.cfg pos) (omega arith) (
                  rw framed.queue (
                    rest_fewer size batch p.queue (ev ∷ evs) rest fuel pos (omega arith) le enough
                      (ap (λ b. b ++ rest) (sym e) ∙ whole)
                      (subst (λ b. (rest ≡ []) ⊎ (length b ≡ size)) e full.1)))))
      ]

  -- The end of the shutdown, and the total that it logs.
  abbrev pub Shutdown : List E → Pusher E → Pusher E × ℕ → Type 0
  Shutdown batch p (q, total) =
      (total ≡ length batch + length p.queue)
      × ((done : List (List E)) × ((drain_loop encode env over (length p.queue + 2) batch p
              ≡ (q, done))
            × Drained batch p q done))

  -- With a BatchSize above 0 and a batch within it, the shutdown ends with an empty queue. The batches that it passes to flushFinal are, in order,
  -- the events of the batch at hand and then of the queue: none is left out or passed twice, no
  -- batch is empty or longer than BatchSize, and the total that is logged is their number.
  pub drain_and_flush_all_lem :
      (batch : List E) (p : Pusher E)
      → 0 < p.cfg.batch_size
      → length batch ≤ p.cfg.batch_size
      → Shutdown batch p (drain_and_flush_all encode env over batch p)
  unfolding drain_and_flush_all
  drain_and_flush_all_lem batch p pos le =
      let h = drain_loop-Drained (length p.queue + 2) batch p pos le (omega arith) in
      let done = (drain_loop encode env over (length p.queue + 2) batch p).1 in
      (sum_lengths_lem done ∙ ap length h.whole ∙ length-append batch p.queue, (done, (refl, h)))
