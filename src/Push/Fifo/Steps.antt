-- ===== src/Push/Fifo/Steps.antt =====
-- One tick of the push loop on a directory of spooled metrics is one tick of a queue.
use topsrv.Base.{
  inr, subst, ◌-◌, refl, ◌++◌, codes, ap, Bool-cases, All-map, inl, arith, sym, zero, none, ◌≡◌,
  length, ◌∙◌, suc, drop, All, some, map, ◌∷◌, Option, Text, List, [], ℕ,
}
use topsrv.Push.State.{Pusher, Env, File}
use topsrv.Push.{push_gathered, file_name, retry_spool, push_metrics}
use topsrv.Push.Stamps.{IsStamp}
use topsrv.Push.Listing.{Increasing, Before}
use topsrv.Push.Inventory.{InventoryProvider, push_with, start_tick}
use topsrv.Push.Fifo.{newest, offer, resend, tick, resend-map}
use topsrv.Push.Fifo.Frame.{Framed, Framed-trans, send_meta-Framed, send_inventory-Framed}
use topsrv.Push.Fifo.Retry.{Works, Works-Left, Left, retry_spool-Left, up_of}
use topsrv.Push.Fifo.Store.{Gz, fresh_file, push_metrics-Left}
use topsrv.Push.Fifo.Stored.{
  Stored, StampedBefore, Stored-resend, Stored-drop, Stored-append, Stored-later, StampedBefore-Gz,
  StampedBefore-Before,
}

abbrev pub fresh : Env → Option Text → Option File
fresh env none = none
fresh env (some body) = some (fresh_file env body)

abbrev pub body_of : File → Text
body_of f = f.body

drop-map : {A B : Type 0} (f : A → B) (k : ℕ) (xs : List A) → drop k (map f xs) ≡ map f (drop k xs)
drop-map f zero xs = refl
drop-map f (suc k) [] = refl
drop-map f (suc k) (x ∷ xs) = drop-map f k xs

length-map : {A B : Type 0} (f : A → B) (xs : List A) → length (map f xs) ≡ length xs
length-map f [] = refl
length-map f (x ∷ xs) = ap suc (length-map f xs)

map-append : {A B : Type 0} (f : A → B) (xs ys : List A) → map f (xs ++ ys) ≡ map f xs ++ map f ys
map-append f [] ys = refl
map-append f (x ∷ xs) ys = ap (λ t. f x ∷ t) (map-append f xs ys)

newest-map : {A B : Type 0} (f : A → B) (xs : List A) → map f (newest xs) ≡ newest (map f xs)
newest-map f xs = rw (length-map f xs) (sym (drop-map f (length xs - 100) xs))

pub tick-map :
    (env : Env) (g : Option Text) (fs : List File)
    → map body_of (tick (up_of env) (fresh env g) fs) ≡ tick (up_of env) g (map body_of fs)
unfolding tick offer
tick-map env none fs = rw (tick, resend-map body_of (up_of env) fs 0) refl
tick-map env (some body) fs =
    let r = resend (up_of env) fs 0 in
    elim (Bool-cases (up_of env r.1)) [
      | inl e ↦ rw (tick, resend-map body_of (up_of env) fs 0, offer, e) refl
      | inr e ↦
          rw (tick, resend-map body_of (up_of env) fs 0, offer, e)
            (newest-map body_of (r.0 ++ (fresh_file env body ∷ []))
              ∙ ap newest (map-append body_of r.0 (fresh_file env body ∷ [])))
    ]

pub Stored-tick :
    (env : Env) (g : Option Text) (fs : List File)
    → IsStamp env.now
    → Stored env.now fs
    → Stored (suc env.now) (tick (up_of env) (fresh env g) fs)
unfolding tick offer
Stored-tick env none fs s h =
    Stored-later env.now (suc env.now) _ (omega arith) (Stored-resend env.now (up_of env) fs 0 h)
Stored-tick env (some body) fs s h =
    let r = resend (up_of env) fs 0 in
    let k : Stored env.now r.0 = Stored-resend env.now (up_of env) fs 0 h in
    elim (Bool-cases (up_of env r.1)) [
      | inl e ↦ rw e (Stored-later env.now (suc env.now) _ (omega arith) k)
      | inr e ↦ rw e (Stored-drop (suc env.now) _ _ (Stored-append env body r.0 s k))
    ]

-- The settings are those of p, and the directory is what a tick makes of the files.
pub record Ticked {S : Type 0} (p q : Pusher S) (fs : List File) : Type 0 where
  pub cfg : q.cfg ≡ p.cfg
  pub files : q.files [] ≡ fs

Stored-Gz : (t : ℕ) (fs : List File) → Stored t fs → All Gz fs
Stored-Gz t fs h = All-map (StampedBefore t) Gz (StampedBefore-Gz t) fs h.stamped

module _ {S : Type 0} (env : Env) where
  pub retry_spool-Ticked :
      (p : Pusher S) (t : ℕ)
      → Works env p
      → Stored t (p.files [])
      → Left p
          (retry_spool env (start_tick p))
          (resend (up_of env) (p.files []) 0).0
          (resend (up_of env) (p.files []) 0).1
  unfolding start_tick
  retry_spool-Ticked p t w h =
      let l =
        retry_spool-Left env (start_tick p) (record { ok = w.ok; request = w.request; dir = w.dir })
          h.increasing (Stored-Gz t (p.files []) h) in
      record { cfg = l.cfg; files = l.files; requests = l.requests }

  metrics-Ticked :
      (body : Text) (p q : Pusher S) (fs : List File) (n : ℕ)
      → Works env p
      → IsStamp env.now
      → Stored env.now fs
      → Left p q fs n
      → Ticked p (push_metrics env body q) (offer (up_of env) (fresh_file env body) (fs, n))
  metrics-Ticked body p q fs n w s h l =
      let b : All (Before (file_name [] env.now (codes "gz"))) fs =
        All-map (StampedBefore env.now) _ (λ f. StampedBefore-Before env.now f s) fs h.stamped in
      let P : List File → Type 0 =
        λ gs. Increasing gs × All Gz gs × All (Before (file_name [] env.now (codes "gz"))) gs in
      let (inc, m, b') : P (q.files []) =
        subst P (sym l.files) (h.increasing, Stored-Gz env.now fs h, b) in
      let r = push_metrics-Left env body q (Works-Left env p q fs n w l) inc m b' in
      record { cfg = r.cfg ∙ l.cfg; files = r.files ∙ (rw (l.files, l.requests) refl) }

  Ticked-Framed : (p q r : Pusher S) (fs : List File) → Ticked p q fs → Framed q r → Ticked p r fs
  Ticked-Framed p q r fs h k = record { cfg = k.cfg ∙ h.cfg; files = k.files ∙ h.files }

  pub flush_gathered-Ticked :
      (g : Option Text) (p : Pusher S)
      → Works env p
      → IsStamp env.now
      → Stored env.now (p.files [])
      → Ticked p
          (push_gathered env g (retry_spool env (start_tick p)))
          (tick (up_of env) (fresh env g) (p.files []))
  unfolding push_gathered tick
  flush_gathered-Ticked none p w s h =
      let l = retry_spool-Ticked p env.now w h in record { cfg = l.cfg; files = l.files }
  flush_gathered-Ticked (some body) p w s h =
      metrics-Ticked body p _ _ _ w s (Stored-resend env.now (up_of env) (p.files []) 0 h)
        (retry_spool-Ticked p env.now w h)

  pub push_with-Ticked :
      (api : InventoryProvider S) (marshal : List Text → Option Text) (g : Option Text)
      (p : Pusher S)
      → Works env p
      → IsStamp env.now
      → Stored env.now (p.files [])
      → Ticked p
          (push_with api env marshal g (retry_spool env (start_tick p)))
          (tick (up_of env) (fresh env g) (p.files []))
  unfolding push_with push_gathered
  push_with-Ticked api marshal none p w s h = flush_gathered-Ticked none p w s h
  push_with-Ticked api marshal (some body) p w s h =
      Ticked-Framed p (push_metrics env body (retry_spool env (start_tick p))) _ _
        (flush_gathered-Ticked (some body) p w s h)
        (Framed-trans env _ _ _ (send_meta-Framed env marshal _) (send_inventory-Framed env api _))
