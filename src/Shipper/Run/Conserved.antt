-- ===== src/Shipper/Run/Conserved.antt =====
-- The whole of Run of internal/topsrv/shipper/pusher.go: no event is lost uncounted.
use topsrv.Base.{
  ℕ, zero, suc, ◌+◌, ◌≡◌, ◌⊎◌, ◌≤◌, ◌<◌, ◌∙◌, Bool, List, [], ◌∷◌, ◌++◌, Option, some, Text, inl,
  inr, refl, sym, ap, subst, arith, min, length, List-cases, length-append,
}
use topsrv.Shipper.State.{no_counters, Pusher, Env, Options, SpoolFile, new_pusher}
use topsrv.Shipper.Spool.{retry_spool, refresh_spool_metrics, cleanup_spool_tmp}
use topsrv.Shipper.Spool.Kept.{
  cleanup-Trimmed, Trimmed, Trimmed-trans, retry_spool-Trimmed, refresh-Trimmed,
}
use topsrv.Shipper.Run.{Move, drain_queue, flush_final, drain_loop, drain_and_flush_all, steps, run}
use topsrv.Shipper.Run.Drain.{
  drain_loop-Drained, drain_queue-append, drain_queue-full, drain_queue-shorter, rest_fewer,
}
use topsrv.Shipper.Run.Flush.{flush_final-Framed}
use topsrv.Shipper.Run.Queue.{Good, Trimmed-Good, moved-Good, flush_final-Good, steps-Good, offers}

module _ {E : Type 0} (encode : List E → Option Text) (env : Env)
    (encodes : (b : List E) → (payload : Text) × (encode b ≡ some payload)) (over : ℕ → Bool) where
  drain_loop-Good :
      (k fuel : ℕ) (batch : List E) (p : Pusher E)
      → length batch ≤ p.cfg.batch_size
      → length p.queue + min 1 (length batch) < fuel
      → Good k (length batch) p
      → Good k 0 (drain_loop encode env over fuel batch p).0
  unfolding drain_loop
  drain_loop-Good k zero batch p le enough g = absurd (omega arith)
  drain_loop-Good k (suc fuel) batch p le enough g =
      let size = p.cfg.batch_size in
      let rest = (drain_queue size batch p.queue).1 in
      let p1 = record p { queue = rest } in
      let whole = drain_queue-append size batch p.queue in
      let full = drain_queue-full size batch p.queue le in
      let total =
        sym (length-append (drain_queue size batch p.queue).0 rest)
        ∙ ap length whole
        ∙ length-append batch p.queue in
      let moved =
        moved-Good encode env encodes k (length batch) (length (drain_queue size batch p.queue).0)
          rest p (drain_queue-shorter size batch p.queue) total g in
      elim (List-cases (drain_queue size batch p.queue).0) [
        | inl e ↦ rw (e, drain_loop) (subst (λ b. Good k (length b) p1) e moved)
        | inr (ev, (evs, e)) ↦
            let p2 = flush_final encode env (over p.sends) (ev ∷ evs) p1 in
            let framed = flush_final-Framed encode env (over p.sends) (ev ∷ evs) p1 in
            rw (e, drain_loop)
              (drain_loop-Good k fuel [] p2 (omega arith)
                (rw framed.queue (
                  rest_fewer size batch p.queue (ev ∷ evs) rest fuel g.size_pos (omega arith) le
                    enough (ap (λ b. b ++ rest) (sym e) ∙ whole)
                    (subst (λ b. (rest ≡ []) ⊎ (length b ≡ size)) e full.1)))
                (flush_final-Good encode env encodes k (over p.sends) (ev ∷ evs) p1
                  (subst (λ b. length b ≤ size) e full.0)
                  (subst (λ b. Good k (length b) p1) e moved)))
      ]

  start-Trimmed :
      (p : Pusher E)
      → Trimmed p (retry_spool env (refresh_spool_metrics env (cleanup_spool_tmp env p)))
  start-Trimmed p =
      let p1 = cleanup_spool_tmp env p in
      let p2 = refresh_spool_metrics env p1 in
      Trimmed-trans p p1 _ (cleanup-Trimmed env p)
        (Trimmed-trans p1 p2 _ (refresh-Trimmed env p1) (retry_spool-Trimmed env p2))

  new_pusher-Good :
      (cfg : Options) (files : List SpoolFile) (tmps : List Text)
      → Good 0 0 (new_pusher {E = E} cfg files tmps)
  unfolding new_pusher no_counters
  new_pusher-Good cfg files tmps = record {
    size_pos = ground arith;
    bounded = omega arith;
    offered = refl;
    spooled_events = 0;
    spooled_bound = omega arith;
    conserved = refl;
  }

  -- Whatever the schedule, the answers to the requests and the system calls: a run that starts with
  -- NewPusher and can encode its batches ends with an empty queue. Every event offered was taken into
  -- the queue or counted as dropped by a full one. Every event taken was sent, or counted as dropped
  -- for good, or was in a batch counted as spooled or as lost on its write; such batches hold at most
  -- BatchSize events.
  pub run_conserves :
      (cfg : Options) (files : List SpoolFile) (tmps : List Text) (moves : List (Move E))
      → let q = run encode env over moves (new_pusher cfg files tmps) in
        (q.queue ≡ []) × Good (offers moves) 0 q
  unfolding run drain_and_flush_all
  run_conserves cfg files tmps moves =
      let p = new_pusher {E = E} cfg files tmps in
      let p0 = retry_spool env (refresh_spool_metrics env (cleanup_spool_tmp env p)) in
      let g0 = Trimmed-Good 0 0 p p0 (start-Trimmed p) (new_pusher-Good cfg files tmps) in
      let s = steps encode env moves (p0, []) in
      let good = steps-Good encode env encodes 0 moves (p0, []) (g0.size_pos, g0) in
      (
        (drain_loop-Drained encode env over (length s.0.queue + 2) s.1 s.0 good.1.size_pos
            (omega arith) (omega arith)).emptied,
        drain_loop-Good (offers moves) (length s.0.queue + 2) s.1 s.0 (omega arith) (omega arith)
            (subst (λ k. Good k (length s.1) s.0) (omega arith) good.1),
      )
