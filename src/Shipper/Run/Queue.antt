-- ===== src/Shipper/Run/Queue.antt =====
-- The queue and the counters of the shipper over every schedule of Run.
use native.Mathlib.Nat.{add-mul}
use topsrv.Base.{
  subst, leb, length-append, ltb, Bool-cases, ap, inr, inl, ℕ, suc, ◌+◌, ◌*◌, ◌≡◌, ◌≤◌, ◌<◌, Bool,
  List, [], ◌∷◌, ◌++◌, Option, some, Text, refl, sym, arith, length,
}
use topsrv.Shipper.Run.{
  queue_cap, Move, offer, receive, tick, flush, flush_final, enqueue, step, steps,
}
use topsrv.Shipper.Run.Flush.{flush_accounts, flush_final_accounts}
use topsrv.Shipper.Spool.{retry_spool}
use topsrv.Shipper.Spool.Kept.{retry_spool-Trimmed}
use topsrv.Shipper.State.{Pusher, Env}
use topsrv.Shipper.Spool.Kept.{Trimmed}
use topsrv.Shipper.Run.Flush.{Accounted}

-- k events have been offered and n events are in the batch at hand.
pub record Good {E : Type 0} (k n : ℕ) (p : Pusher E) : Type 0 where
  pub size_pos : 0 < p.cfg.batch_size
  pub bounded : length p.queue ≤ p.cfg.batch_size * 2
  pub offered : p.counters.enqueued + p.counters.drop_queue_full ≡ k
  pub spooled_events : ℕ  -- of the batches that are counted as spooled or as lost on the write
  pub spooled_bound :
      spooled_events ≤ (p.counters.spooled + p.counters.drop_spool_write) * p.cfg.batch_size
  pub conserved :
      p.counters.sent + p.counters.drop_permanent + spooled_events + n + length p.queue
      ≡ p.counters.enqueued

one_more : (a c x n size : ℕ) → c ≡ a + 1 → x ≤ a * size → n ≤ size → x + n ≤ c * size
one_more a c x n size e h le = rw e (omega (arith, add-mul a 1 size))

module _ {E : Type 0} (k n : ℕ) (p q : Pusher E) where
  pub Trimmed-Good : Trimmed p q → Good k n p → Good k n q
  Trimmed-Good h g = record {
    size_pos = rw h.framed.cfg g.size_pos;
    bounded = rw (h.framed.cfg, h.framed.queue) g.bounded;
    offered = rw (h.framed.enqueued, h.framed.queue_full) g.offered;
    spooled_events = g.spooled_events;
    spooled_bound = rw (h.framed.cfg, h.spooled, h.spool_write) g.spooled_bound;
    conserved = rw (h.framed.queue, h.framed.enqueued, h.sent, h.permanent) g.conserved;
  }

  pub Accounted-Good : Accounted n p q → n ≤ p.cfg.batch_size → Good k n p → Good k 0 q
  Accounted-Good h le g = record {
    size_pos = rw h.framed.cfg g.size_pos;
    bounded = rw (h.framed.cfg, h.framed.queue) g.bounded;
    offered = rw (h.framed.enqueued, h.framed.queue_full) g.offered;
    spooled_events = total.0;
    spooled_bound = rw h.framed.cfg total.1;
    conserved = rw (h.framed.queue, h.framed.enqueued) total.2;
  }
    where
      total :
          (x : ℕ) × (x ≤ (q.counters.spooled + q.counters.drop_spool_write) * p.cfg.batch_size)
          × (q.counters.sent + q.counters.drop_permanent + x + 0 + length p.queue
              ≡ p.counters.enqueued)
      total = elim h.counted [
        | inl c ↦ (g.spooled_events, rw (c.2, c.3) g.spooled_bound, omega arith)
        | inr (inl c) ↦ (g.spooled_events, rw (c.2, c.3) g.spooled_bound, omega arith)
        | inr (inr (inl c)) ↦ (
          g.spooled_events + n,
          rw (c.2, c.3) (one_more _ _ _ _ _ (omega arith) g.spooled_bound le),
          omega arith,
        )
        | inr (inr (inr c)) ↦ (
          g.spooled_events + n,
          rw (c.2, c.3) (one_more _ _ _ _ _ (omega arith) g.spooled_bound le),
          omega arith,
        )
      ]

-- The number of calls of Enqueue in a schedule.
abbrev pub offers : {E : Type 0} → List (Move E) → ℕ
offers [] = 0
offers (offer ev ∷ moves) = suc (offers moves)
offers (receive ∷ moves) = offers moves
offers (tick ∷ moves) = offers moves

offered_by : {E : Type 0} → Move E → ℕ → ℕ
offered_by (offer ev) k = k + 1
offered_by receive k = k
offered_by tick k = k

offers_lem :
    {E : Type 0} (k : ℕ) (mv : Move E) (moves : List (Move E))
    → offered_by mv k + offers moves ≡ k + offers (mv ∷ moves)
unfolding offered_by
offers_lem k (offer ev) moves = omega arith
offers_lem k receive moves = refl
offers_lem k tick moves = refl

module _ {E : Type 0} (encode : List E → Option Text) (env : Env)
    (encodes : (b : List E) → (payload : Text) × (encode b ≡ some payload)) where
  flush-Good :
      (k : ℕ) (batch : List E) (p : Pusher E)
      → length batch ≤ p.cfg.batch_size
      → Good k (length batch) p
      → Good k 0 (flush encode env batch p)
  unfolding flush
  flush-Good k [] p le g = g
  flush-Good k (ev ∷ batch) p le g =
      Accounted-Good k (length (ev ∷ batch)) p _
        (flush_accounts encode env ev batch (encodes (ev ∷ batch)).0 p (encodes (ev ∷ batch)).1) le
        g

  pub flush_final-Good :
      (k : ℕ) (over : Bool) (batch : List E) (p : Pusher E)
      → length batch ≤ p.cfg.batch_size
      → Good k (length batch) p
      → Good k 0 (flush_final encode env over batch p)
  unfolding flush_final
  flush_final-Good k over [] p le g = g
  flush_final-Good k over (ev ∷ batch) p le g =
      Accounted-Good k (length (ev ∷ batch)) p _
        (flush_final_accounts encode env over ev batch (encodes (ev ∷ batch)).0 p
          (encodes (ev ∷ batch)).1)
        le g

  enqueue-Good :
      (k n : ℕ) (ev : E) (p : Pusher E)
      → Good k n p
      → Good (k + 1) n (enqueue ev p) × ((enqueue ev p).cfg ≡ p.cfg)
  enqueue-Good k n ev p g = elim (Bool-cases (ltb (length p.queue) (queue_cap p))) [
    | inl t ↦
        unfold enqueue in
        rw (t, enqueue)
          (
            record {
              size_pos = g.size_pos;
              bounded = ground (arith, length-append p.queue (ev ∷ []));
              offered = omega (arith, g.offered);
              spooled_events = g.spooled_events;
              spooled_bound = g.spooled_bound;
              conserved = omega (arith, g.conserved, length-append p.queue (ev ∷ []));
            },
            refl,
          )
    | inr t ↦
        unfold enqueue in
        rw (t, enqueue)
          (
            record {
              size_pos = g.size_pos;
              bounded = g.bounded;
              offered = omega (arith, g.offered);
              spooled_events = g.spooled_events;
              spooled_bound = g.spooled_bound;
              conserved = g.conserved;
            },
            refl,
          )
  ]

  -- Events move from the queue to the batch.
  pub moved-Good :
      (k n m : ℕ) (queue : List E) (p : Pusher E)
      → length queue ≤ length p.queue
      → m + length queue ≡ n + length p.queue
      → Good k n p
      → Good k m (record p { queue = queue })
  moved-Good k n m queue p fewer same g = record {
    size_pos = g.size_pos;
    bounded = omega (arith, g.bounded);
    offered = g.offered;
    spooled_events = g.spooled_events;
    spooled_bound = g.spooled_bound;
    conserved = omega (arith, g.conserved);
  }

  -- A batch between two moves is never full.
  abbrev pub GoodState : ℕ → Pusher E × List E → Type 0
  GoodState k (p, batch) = (length batch < p.cfg.batch_size) × Good k (length batch) p

  receive_step-Good :
      (k : ℕ) (p : Pusher E) (batch queue : List E)
      → p.queue ≡ queue
      → GoodState k (p, batch)
      → GoodState k (step encode env receive (record p { queue = queue }, batch))
  unfolding step
  receive_step-Good k p batch [] e (room, g) = (room, rw (sym e) g)
  receive_step-Good k p batch (ev ∷ queue) e (room, g) =
      let longer = length-append batch (ev ∷ []) in
      let h =
        moved-Good k (length batch) (length (batch ++ ev ∷ [])) queue p (omega (arith, ap length e))
          (omega (arith, longer, ap length e)) g in
      elim (Bool-cases (leb p.cfg.batch_size (length (batch ++ ev ∷ [])))) [
        | inl t ↦
            (let flushed =
                flush-Good k (batch ++ ev ∷ []) (record p { queue = queue }) (omega (arith, longer))
                  h in
              rw t (flushed.size_pos, flushed))
        | inr t ↦ rw t (ground (arith, longer), h)
      ]

  step-Good :
      (k : ℕ) (mv : Move E) (s : Pusher E × List E)
      → GoodState k s
      → GoodState (offered_by mv k) (step encode env mv s)
  unfolding step offered_by
  step-Good k (offer ev) (p, batch) (room, g) =
      let (h, e) = enqueue-Good k (length batch) ev p g in (rw e room, h)
  step-Good k receive (p, batch) good = receive_step-Good k p batch p.queue refl good
  step-Good k tick (p, batch) (room, g) =
      let h = Trimmed-Good k (length batch) p (retry_spool env p) (retry_spool-Trimmed env p) g in
      let flushed =
        flush-Good k batch (retry_spool env p)
          (rw (retry_spool-Trimmed env p).framed.cfg (omega arith)) h in
      (flushed.size_pos, flushed)

  pub steps-Good :
      (k : ℕ) (moves : List (Move E)) (s : Pusher E × List E)
      → GoodState k s
      → GoodState (k + offers moves) (steps encode env moves s)
  unfolding steps
  steps-Good k [] s good = subst (λ j. GoodState j s) (omega arith) good
  steps-Good k (mv ∷ moves) s good =
      subst (λ j. GoodState j (steps encode env moves (step encode env mv s)))
        (offers_lem k mv moves)
        (steps-Good (offered_by mv k) moves (step encode env mv s) (step-Good k mv s good))
