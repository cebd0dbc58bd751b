-- ===== src/Shipper/Spool/Kept.antt =====
-- What the spool leaves alone, and what it counts.
use topsrv.Base.{
  ℕ, ◌+◌, ◌∙◌, ◌≡◌, ◌⊎◌, List, [], ◌∷◌, Option, none, some, Text, arith, leb, Bool-cases, inl, inr,
}
use topsrv.Shipper.State.{Pusher, Env, SpoolFile}
use topsrv.Shipper.Frame.{Framed, Framed-trans, Kept}
use topsrv.Shipper.Send.{SendError, send}
use topsrv.Shipper.Send.Retry.{send-Kept}
use topsrv.Shipper.Spool.{
  cleanup_spool_tmp, remove, evict, trim_loop, refresh_spool_metrics, trim_spool, store, leave_tmp,
  drop_write, spool, replay_sent, replay_one, retry_loop, retry_spool, listing, usage, budget_of,
  sized,
}

-- Files and evictions may change, nothing else that is counted by events.
pub record Trimmed {E : Type 0} (p q : Pusher E) : Type 0 where
  pub framed : Framed p q
  pub sent : q.counters.sent ≡ p.counters.sent
  pub permanent : q.counters.drop_permanent ≡ p.counters.drop_permanent
  pub spooled : q.counters.spooled ≡ p.counters.spooled
  pub spool_write : q.counters.drop_spool_write ≡ p.counters.drop_spool_write

module _ {E : Type 0} where
  pub Trimmed-refl : (p : Pusher E) → Trimmed p p
  Trimmed-refl p = ground arith

  pub Trimmed-trans : (p q r : Pusher E) → Trimmed p q → Trimmed q r → Trimmed p r
  Trimmed-trans p q r h k = record {
    framed = Framed-trans p q r h.framed k.framed;
    sent = k.sent ∙ h.sent;
    permanent = k.permanent ∙ h.permanent;
    spooled = k.spooled ∙ h.spooled;
    spool_write = k.spool_write ∙ h.spool_write;
  }

  Kept-Trimmed : (p q : Pusher E) → Kept p q → Trimmed p q
  Kept-Trimmed p q h = record {
    framed = h.framed;
    sent = h.sent;
    permanent = h.permanent;
    spooled = h.spooled;
    spool_write = h.spool_write;
  }

  module _ (env : Env) where
    remove-Trimmed : (name : Text) (p : Pusher E) → Trimmed p (remove env name p).0
    unfolding remove
    remove-Trimmed name p = ground arith

    evict-Trimmed : (name : Text) (p : Pusher E) → Trimmed p (evict env name p).0
    unfolding evict
    evict-Trimmed name p = ground arith

    trim_loop-Trimmed :
        (budget : ℕ) (fs : List (SpoolFile × ℕ)) (total : ℕ) (p : Pusher E)
        → Trimmed p (trim_loop env budget fs total p)
    unfolding trim_loop
    trim_loop-Trimmed budget [] total p = Trimmed-refl p
    trim_loop-Trimmed budget ((f, size) ∷ fs) total p = elim (Bool-cases (leb total budget)) [
      | inl fits ↦ rw fits (Trimmed-refl p)
      | inr over ↦ rw over (
          Trimmed-trans p (evict env f.name p).0 _ (evict-Trimmed f.name p)
            (trim_loop-Trimmed budget fs _ (evict env f.name p).0))
    ]

    pub refresh-Trimmed : (p : Pusher E) → Trimmed p (refresh_spool_metrics env p)
    unfolding refresh_spool_metrics
    refresh-Trimmed p = ground arith

    trim_spool-Trimmed : (p : Pusher E) → Trimmed p (trim_spool env p)
    unfolding trim_spool
    trim_spool-Trimmed p = elim (Bool-cases (leb (usage env p (listing env p)) (budget_of p))) [
      | inl fits ↦ rw fits (refresh-Trimmed p)
      | inr over ↦ rw over (
          Trimmed-trans p
            (trim_loop env (budget_of p) (sized env p (listing env p)) (usage env p (listing env p))
              p)
            _
            (trim_loop-Trimmed (budget_of p) (sized env p (listing env p))
              (usage env p (listing env p)) p)
            (refresh-Trimmed (
              trim_loop env (budget_of p) (sized env p (listing env p))
                (usage env p (listing env p)) p)))
    ]

    -- A batch that goes to the spool is counted once: as spooled, or as lost on the write.
    pub record Spooled (p q : Pusher E) : Type 0 where
      pub framed : Framed p q
      pub sent : q.counters.sent ≡ p.counters.sent
      pub permanent : q.counters.drop_permanent ≡ p.counters.drop_permanent
      pub counted :
          ((q.counters.spooled ≡ p.counters.spooled + 1)
            × (q.counters.drop_spool_write ≡ p.counters.drop_spool_write))
          ⊎ ((q.counters.spooled ≡ p.counters.spooled)
              × (q.counters.drop_spool_write ≡ p.counters.drop_spool_write + 1))

    pub spool-Spooled : (payload id : Text) (p : Pusher E) → Spooled p (spool env payload id p)
    unfolding spool store leave_tmp drop_write
    spool-Spooled payload id p = ground (arith, trim_spool-Trimmed (store env payload id p))

    replay_sent-Trimmed :
        (name : Text) (p : Pusher E) (err : Option SendError)
        → Trimmed p (replay_sent env name p err).0
    unfolding replay_sent
    replay_sent-Trimmed name p none = remove-Trimmed name p
    replay_sent-Trimmed name p (some e) = ground (arith, remove-Trimmed name p, Trimmed-refl p)

    replay_one-Trimmed : (f : SpoolFile) (p : Pusher E) → Trimmed p (replay_one env f p).0
    unfolding replay_one
    replay_one-Trimmed f p = ground (
      arith,
      remove-Trimmed f.name p,
      Kept-Trimmed p (send env p).0 (send-Kept env p),
      replay_sent-Trimmed f.name (send env p).0 (send env p).1,
    )

    retry_loop-Trimmed :
        (fs : List SpoolFile) (fails : ℕ) (p : Pusher E) → Trimmed p (retry_loop env fs fails p).0
    unfolding retry_loop
    retry_loop-Trimmed [] fails p = Trimmed-refl p
    retry_loop-Trimmed (f ∷ fs) fails p = elim (Bool-cases (leb 3 fails)) [
      | inl stop ↦ rw stop (Trimmed-refl p)
      | inr go ↦ rw go (
          Trimmed-trans p (replay_one env f p).0 _ (replay_one-Trimmed f p)
            (retry_loop-Trimmed fs _ (replay_one env f p).0))
    ]

    pub retry_spool-Trimmed : (p : Pusher E) → Trimmed p (retry_spool env p)
    unfolding retry_spool
    retry_spool-Trimmed p = scanned (listing env p)
      where
        scanned :
            (l : List SpoolFile)
            → Trimmed p (elim l [
              | [] ↦ p
              | f ∷ fs ↦ refresh_spool_metrics env (retry_loop env (f ∷ fs) 0 p).0
            ])
        scanned [] = Trimmed-refl p
        scanned (f ∷ fs) =
            Trimmed-trans p (retry_loop env (f ∷ fs) 0 p).0 _ (retry_loop-Trimmed (f ∷ fs) 0 p)
              (refresh-Trimmed (retry_loop env (f ∷ fs) 0 p).0)

    pub cleanup-Trimmed : (p : Pusher E) → Trimmed p (cleanup_spool_tmp env p)
    unfolding cleanup_spool_tmp
    cleanup-Trimmed p = ground (arith, Trimmed-refl p)
