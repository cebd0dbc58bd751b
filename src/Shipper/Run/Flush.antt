-- ===== src/Shipper/Run/Flush.antt =====
-- Every batch is accounted for once: what flush and flushFinal count.
use topsrv.Base.{
  Option-cases, sym, ℕ, suc, ◌+◌, ◌≡◌, ◌⊎◌, Bool, true, false, List, [], ◌∷◌, Option, none, some,
  Text, refl, length, Bool-cases, inl, inr,
}
use topsrv.Shipper.State.{Pusher, Env}
use topsrv.Shipper.Frame.{Framed, Framed-refl, Framed-trans, Kept}
use topsrv.Shipper.Send.{SendError, is_permanent_failure, send, send_with_retry}
use topsrv.Shipper.Send.Retry.{send-Kept, send_with_retry-Kept}
use topsrv.Shipper.Spool.{spool}
use topsrv.Shipper.Spool.Kept.{Spooled, spool-Spooled}
use topsrv.Shipper.Run.{count_sent, count_permanent, draw_id, settle, flush, flush_final}

-- The counters of a batch of n events: it is sent, dropped for good, in the spool, or lost on the
-- write of its file, and no two of these.
pub record Accounted {E : Type 0} (n : ℕ) (p q : Pusher E) : Type 0 where
  pub framed : Framed p q
  pub counted :
      ((q.counters.sent ≡ p.counters.sent + n)
        × (q.counters.drop_permanent ≡ p.counters.drop_permanent)
        × (q.counters.spooled ≡ p.counters.spooled)
        × (q.counters.drop_spool_write ≡ p.counters.drop_spool_write))
      ⊎ ((q.counters.sent ≡ p.counters.sent)
          × (q.counters.drop_permanent ≡ p.counters.drop_permanent + n)
          × (q.counters.spooled ≡ p.counters.spooled)
          × (q.counters.drop_spool_write ≡ p.counters.drop_spool_write))
      ⊎ ((q.counters.sent ≡ p.counters.sent)
          × (q.counters.drop_permanent ≡ p.counters.drop_permanent)
          × (q.counters.spooled ≡ p.counters.spooled + 1)
          × (q.counters.drop_spool_write ≡ p.counters.drop_spool_write))
      ⊎ ((q.counters.sent ≡ p.counters.sent)
          × (q.counters.drop_permanent ≡ p.counters.drop_permanent)
          × (q.counters.spooled ≡ p.counters.spooled)
          × (q.counters.drop_spool_write ≡ p.counters.drop_spool_write + 1))

module _ {E : Type 0} where
  Kept-Accounted : (n : ℕ) (p q r : Pusher E) → Kept p q → Accounted n q r → Accounted n p r
  Kept-Accounted n p q r h a = record {
    framed = Framed-trans p q r h.framed a.framed;
    counted = rw (sym h.sent, sym h.permanent, sym h.spooled, sym h.spool_write) a.counted;
  }

module _ {E : Type 0} (env : Env) where
  Spooled-Accounted : (n : ℕ) (p q : Pusher E) → Spooled env p q → Accounted n p q
  Spooled-Accounted n p q h = record {
    framed = h.framed;
    counted = elim h.counted [
      | inl (s, w) ↦ inr (inr (inl (h.sent, h.permanent, s, w)))
      | inr (s, w) ↦ inr (inr (inr (h.sent, h.permanent, s, w)))
    ];
  }

module _ {E : Type 0} (encode : List E → Option Text) (env : Env) where
  count_sent-Accounted : (n : ℕ) (p : Pusher E) → Accounted n p (count_sent encode env n p)
  unfolding count_sent
  count_sent-Accounted n p = record {
    framed = record { cfg = refl; queue = refl; enqueued = refl; queue_full = refl };
    counted = inl (refl, refl, refl, refl);
  }

  count_permanent-Accounted :
      (n : ℕ) (p : Pusher E) → Accounted n p (count_permanent encode env n p)
  unfolding count_permanent
  count_permanent-Accounted n p = record {
    framed = record { cfg = refl; queue = refl; enqueued = refl; queue_full = refl };
    counted = inr (inl (refl, refl, refl, refl));
  }

  draw_id-Accounted :
      (n : ℕ) (p r : Pusher E) → Accounted n (draw_id encode env p).0 r → Accounted n p r
  unfolding draw_id
  draw_id-Accounted n p r a = record {
    framed = record {
      cfg = a.framed.cfg;
      queue = a.framed.queue;
      enqueued = a.framed.enqueued;
      queue_full = a.framed.queue_full;
    };
    counted = a.counted;
  }

  settle-Accounted :
      (n : ℕ) (payload id : Text) (p : Pusher E) (err : Option SendError)
      → Accounted n p (settle encode env n payload id p err)
  unfolding settle
  settle-Accounted n payload id p none = count_sent-Accounted n p
  settle-Accounted n payload id p (some e) = elim (Bool-cases (is_permanent_failure e)) [
    | inl t ↦ rw t (count_permanent-Accounted n p)
    | inr t ↦
        rw t (Spooled-Accounted env n p (spool env payload id p) (spool-Spooled env payload id p))
  ]

  -- A batch that can be encoded is accounted for once by flush: its events are counted as sent or as
  -- dropped for good, or one file is counted as spooled or as lost on its write. The queue and the
  -- counters of Enqueue are left alone.
  pub flush_accounts :
      (ev : E) (batch : List E) (payload : Text) (p : Pusher E)
      → encode (ev ∷ batch) ≡ some payload
      → Accounted (suc (length batch)) p (flush encode env (ev ∷ batch) p)
  unfolding flush
  flush_accounts ev batch payload p e =
      rw (e, flush)
        (draw_id-Accounted _ p _ (
          Kept-Accounted _ (draw_id encode env p).0 (send_with_retry env (draw_id encode env p).0).0
            _ (send_with_retry-Kept env (draw_id encode env p).0)
            (settle-Accounted _ payload (draw_id encode env p).1 _ _)))

  -- So it is by flushFinal, whether or not the budget of the shutdown has run out.
  pub flush_final_accounts :
      (over : Bool) (ev : E) (batch : List E) (payload : Text) (p : Pusher E)
      → encode (ev ∷ batch) ≡ some payload
      → Accounted (suc (length batch)) p (flush_final encode env over (ev ∷ batch) p)
  unfolding flush_final
  flush_final_accounts true ev batch payload p e =
      rw (e, flush_final)
        (draw_id-Accounted _ p _ (
          Spooled-Accounted env _ _ _
            (spool-Spooled env payload (draw_id encode env p).1 (draw_id encode env p).0)))
  flush_final_accounts false ev batch payload p e =
      rw (e, flush_final)
        (draw_id-Accounted _ p _ (
          Kept-Accounted _ (draw_id encode env p).0 (send env (draw_id encode env p).0).0 _
            (send-Kept env (draw_id encode env p).0)
            (settle-Accounted _ payload (draw_id encode env p).1 _ _)))

  pub flush-Framed : (batch : List E) (p : Pusher E) → Framed p (flush encode env batch p)
  flush-Framed [] p = unfold flush in Framed-refl p
  flush-Framed (ev ∷ batch) p = elim (Option-cases (encode (ev ∷ batch))) [
    | inl e ↦ unfold flush in rw (e, flush) (Framed-refl p)
    | inr (payload, e) ↦ (flush_accounts ev batch payload p e).framed
  ]

  pub flush_final-Framed :
      (over : Bool) (batch : List E) (p : Pusher E) → Framed p (flush_final encode env over batch p)
  flush_final-Framed over [] p = unfold flush_final in Framed-refl p
  flush_final-Framed over (ev ∷ batch) p = elim (Option-cases (encode (ev ∷ batch))) [
    | inl e ↦ unfold flush_final in rw (e, flush_final) (Framed-refl p)
    | inr (payload, e) ↦ (flush_final_accounts over ev batch payload p e).framed
  ]
