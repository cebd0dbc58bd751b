-- ===== src/Shipper/Run.antt =====
-- The queue and the loop of internal/topsrv/shipper/pusher.go: Enqueue, Run, drainQueue, flush,
-- flushFinal and drainAndFlushAll. The schedule of `select` is a list of moves.
pub mod Conserved
pub mod Drain
pub mod Flush
pub mod Queue
use topsrv.Base.{
  ℕ, zero, suc, ◌+◌, ◌-◌, ◌*◌, Bool, true, false, not, ◌&&◌, ◌||◌, List, [], ◌∷◌, ◌++◌, Option,
  none, some, Text, length, take, drop, leb, ltb, if◌then◌else◌,
}
use topsrv.Shipper.State.{Pusher, Counters, Env, queue_cap}
use topsrv.Shipper.Send.{SendError, is_permanent_failure, send, send_with_retry}
use topsrv.Shipper.Spool.{spool, retry_spool, refresh_spool_metrics, cleanup_spool_tmp}

-- A full queue drops the new event.
unfoldable pub enqueue : {E : Type 0} → E → Pusher E → Pusher E
enqueue ev p =
    if ltb (length p.queue) (queue_cap p)
    then record p {
      queue = p.queue ++ ev ∷ [];
      counters = record p.counters { enqueued = p.counters.enqueued + 1 };
    }
    else record p {
      counters = record p.counters { drop_queue_full = p.counters.drop_queue_full + 1 };
    }

-- drainQueue: the batch with as many events of the queue as BatchSize leaves room for, and the rest.
unfoldable pub drain_queue : {E : Type 0} → ℕ → List E → List E → List E × List E
drain_queue size batch [] = (batch, [])
drain_queue size batch (ev ∷ queue) =
    let rest = drain_queue size (batch ++ ev ∷ []) queue in
    if ltb (length batch) size then rest else (batch, ev ∷ queue)

-- What `select` takes up.
pub data Move (E : Type 0) : Type 0 where
  offer : E → Move E  -- another goroutine calls Enqueue
  receive : Move E  -- case ev := <-p.queue, where there is one
  tick : Move E

unfoldable pub sum_lengths : {E : Type 0} → List (List E) → ℕ
sum_lengths [] = 0
sum_lengths (b ∷ bs) = length b + sum_lengths bs

module _ {E : Type 0} (encode : List E → Option Text) (env : Env) where
  count_sent : ℕ → Pusher E → Pusher E
  count_sent n p = record p { counters = record p.counters { sent = p.counters.sent + n } }

  count_permanent : ℕ → Pusher E → Pusher E
  count_permanent n p = record p {
    counters = record p.counters { drop_permanent = p.counters.drop_permanent + n };
  }

  -- newBatchID
  draw_id : Pusher E → Pusher E × Text
  draw_id p = (record p { ids = p.ids + 1 }, env.batch_id p.ids)

  -- What flush and flushFinal do with the error of their send.
  settle : ℕ → Text → Text → Pusher E → Option SendError → Pusher E
  settle n payload id p none = count_sent n p
  settle n payload id p (some err) =
      if is_permanent_failure err then count_permanent n p else spool env payload id p

  unfoldable pub flush : List E → Pusher E → Pusher E
  unfolding count_sent count_permanent draw_id settle
  flush [] p = p
  flush (ev ∷ batch) p = elim (encode (ev ∷ batch)) [
    | none ↦ p
    | some payload ↦
        (let (p1, id) = draw_id p in
          let (p2, err) = send_with_retry env p1 in settle (length (ev ∷ batch)) payload id p2 err)
  ]

  -- `over` says whether the budget of the shutdown has run out.
  unfoldable pub flush_final : Bool → List E → Pusher E → Pusher E
  unfolding count_sent count_permanent draw_id settle
  flush_final over [] p = p
  flush_final over (ev ∷ batch) p = elim (encode (ev ∷ batch)) [
    | none ↦ p
    | some payload ↦
        (let (p1, id) = draw_id p in
          if over
          then spool env payload id p1
          else (let (p2, err) = send env p1 in settle (length (ev ∷ batch)) payload id p2 err))
  ]

  -- The loop of drainAndFlushAll on fuel, with the batches that it flushed behind the state. `over`
  -- tells from the number of requests whether the budget has run out.
  unfoldable pub drain_loop : (ℕ → Bool) → ℕ → List E → Pusher E → Pusher E × List (List E)
  drain_loop over zero batch p = (p, [])
  drain_loop over (suc fuel) batch p =
      let (b, queue) = drain_queue p.cfg.batch_size batch p.queue in
      let p' = record p { queue = queue } in
      elim b [
        | [] ↦ (p', [])
        | ev ∷ evs ↦
            (let (p'', done) = drain_loop over fuel [] (flush_final (over p.sends) (ev ∷ evs) p') in
              (p'', (ev ∷ evs) ∷ done))
      ]

  -- The state, and the total that is logged.
  unfoldable pub drain_and_flush_all : (ℕ → Bool) → List E → Pusher E → Pusher E × ℕ
  unfolding drain_loop sum_lengths
  drain_and_flush_all over batch p =
      let (p', done) = drain_loop over (length p.queue + 2) batch p in (p', sum_lengths done)

  unfoldable pub step : Move E → Pusher E × List E → Pusher E × List E
  step (offer ev) (p, batch) = (enqueue ev p, batch)
  step receive (p, batch) = elim p.queue [
    | [] ↦ (p, batch)
    | ev ∷ queue ↦
        (let p' = record p { queue = queue } in
          let b = batch ++ ev ∷ [] in
          if leb p.cfg.batch_size (length b) then (flush b p', []) else (p', b))
  ]
  step tick (p, batch) = (flush batch (retry_spool env p), [])

  unfoldable pub steps : List (Move E) → Pusher E × List E → Pusher E × List E
  steps [] s = s
  steps (mv ∷ moves) s = steps moves (step mv s)

  -- Run: the start, the moves up to the end of the context, and the shutdown.
  unfoldable pub run : (ℕ → Bool) → List (Move E) → Pusher E → Pusher E
  unfolding steps drain_and_flush_all
  run over moves p =
      let (p', batch) =
        steps moves (retry_spool env (refresh_spool_metrics env (cleanup_spool_tmp env p)), []) in
      (drain_and_flush_all over batch p').0
