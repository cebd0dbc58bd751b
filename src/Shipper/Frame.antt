-- ===== src/Shipper/Frame.antt =====
-- What delivery leaves alone: the configuration, the queue, and the counters of Enqueue.
use topsrv.Base.{arith, ◌∙◌, ◌≡◌, refl}
use topsrv.Shipper.State.{Pusher}

pub record Framed {E : Type 0} (p q : Pusher E) : Type 0 where
  pub cfg : q.cfg ≡ p.cfg
  pub queue : q.queue ≡ p.queue
  pub enqueued : q.counters.enqueued ≡ p.counters.enqueued
  pub queue_full : q.counters.drop_queue_full ≡ p.counters.drop_queue_full

module _ {E : Type 0} where
  pub Framed-refl : (p : Pusher E) → Framed p p
  Framed-refl p = record { cfg = refl; queue = refl; enqueued = refl; queue_full = refl }

  pub Framed-trans : (p q r : Pusher E) → Framed p q → Framed q r → Framed p r
  Framed-trans p q r h k = record {
    cfg = k.cfg ∙ h.cfg;
    queue = k.queue ∙ h.queue;
    enqueued = k.enqueued ∙ h.enqueued;
    queue_full = k.queue_full ∙ h.queue_full;
  }

-- A request makes no other change than these.
pub record Kept {E : Type 0} (p q : Pusher E) : Type 0 where
  pub framed : Framed p q
  pub sent : q.counters.sent ≡ p.counters.sent
  pub permanent : q.counters.drop_permanent ≡ p.counters.drop_permanent
  pub spooled : q.counters.spooled ≡ p.counters.spooled
  pub spool_write : q.counters.drop_spool_write ≡ p.counters.drop_spool_write
  pub files : q.files ≡ p.files
  pub ids : q.ids ≡ p.ids

module _ {E : Type 0} where
  pub Kept-refl : (p : Pusher E) → Kept p p
  Kept-refl p = ground arith

  pub Kept-trans : (p q r : Pusher E) → Kept p q → Kept q r → Kept p r
  Kept-trans p q r h k = record {
    framed = Framed-trans p q r h.framed k.framed;
    sent = k.sent ∙ h.sent;
    permanent = k.permanent ∙ h.permanent;
    spooled = k.spooled ∙ h.spooled;
    spool_write = k.spool_write ∙ h.spool_write;
    files = k.files ∙ h.files;
    ids = k.ids ∙ h.ids;
  }
