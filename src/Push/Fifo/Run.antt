-- ===== src/Push/Fifo/Run.antt =====
-- Over a whole run, the directory of spooled metrics is a queue.
use topsrv.Base.{
  subst, refl, ◌++◌, ap, ◌≤◌, All-map, sym, none, ◌≡◌, ◌∙◌, suc, All, map, ◌∷◌, Option, Text, List,
  [], ℕ,
}
use topsrv.Push.State.{Pusher, Env, File}
use topsrv.Push.{retry_spool, flush}
use topsrv.Push.Stamps.{IsStamp}
use topsrv.Push.Inventory.{InventoryProvider, push, ticks, run, start_tick}
use topsrv.Push.Fifo.{resend, tick, resend-map}
use topsrv.Push.Fifo.Retry.{Works, up_of}
use topsrv.Push.Fifo.Stored.{Stored, Stored-resend, Stored-later}
use topsrv.Push.Fifo.Steps.{
  fresh, tick-map, Stored-tick, retry_spool-Ticked, flush_gathered-Ticked, push_with-Ticked,
  body_of, Ticked,
}

-- The queue over the ticks of a run.
abbrev pub queue_ticks : List Env → List Text → List Text
queue_ticks [] q = q
queue_ticks (env ∷ envs) q = queue_ticks envs (tick (up_of env) env.gathered q)

abbrev pub queue_run : Env → List Env → Env → List Text → List Text
queue_run first envs last q =
    tick (up_of last) last.gathered (queue_ticks envs (tick (up_of first) none q))

-- The clock goes on from tick to tick, in the range of the 13 digits.
abbrev pub Clocked : ℕ → List Env → Type 0
Clocked t [] = Unit
Clocked t (env ∷ envs) = (t ≤ env.now) × IsStamp env.now × Clocked (suc env.now) envs

module _ {S : Type 0} (api : InventoryProvider S) (marshal : List Text → Option Text) where
  Works-Ticked :
      (env : Env) (p q : Pusher S) (fs : List File) → Ticked p q fs → Works env p → Works env q
  Works-Ticked env p q fs h w = record {
    ok = w.ok;
    request = rw (h.cfg) (w.request);
    dir = rw (h.cfg) (w.dir);
  }

  Works-All :
      (envs : List Env) (p q : Pusher S) (fs : List File)
      → Ticked p q fs
      → All (λ env. Works env p) envs
      → All (λ env. Works env q) envs
  Works-All envs p q fs h =
      All-map (λ env. Works env p) (λ env. Works env q) (λ env. Works-Ticked env p q fs h) envs

  -- After some ticks, where `last` is still to come.
  flush-queue :
      (last : Env) (p : Pusher S) (t : ℕ)
      → Works last p
      → Stored t (p.files [])
      → t ≤ last.now
      → IsStamp last.now
      → map body_of ((flush last (start_tick p)).files [])
        ≡ tick (up_of last) last.gathered (map body_of (p.files []))
  unfolding flush
  flush-queue last p t w h le s =
      rw ((flush_gathered-Ticked last last.gathered p w s (Stored-later t last.now _ le h)).files)
        (tick-map last last.gathered (p.files []))

  ticks-queue :
      (envs : List Env) (last : Env) (p : Pusher S) (t : ℕ)
      → All (λ env. Works env p) (envs ++ (last ∷ []))
      → Stored t (p.files [])
      → Clocked t (envs ++ (last ∷ []))
      → map body_of ((flush last (start_tick (ticks api marshal envs p))).files [])
        ≡ tick (up_of last) last.gathered (queue_ticks envs (map body_of (p.files [])))
  unfolding ticks
  ticks-queue [] last p t (w, _) h (le, s, _) = flush-queue last p t w h le s
  ticks-queue (env ∷ envs) last p t (w, ws) h (le, s, c) =
      let k : Stored env.now (p.files []) = Stored-later t env.now _ le h in
      let q = push api env marshal (start_tick p) in
      let r : Ticked p q (tick (up_of env) (fresh env env.gathered) (p.files [])) =
        unfold push in push_with-Ticked env api marshal env.gathered p w s k in
      let k' : Stored (suc env.now) (q.files []) =
        subst (Stored (suc env.now)) (sym r.files)
          (Stored-tick env env.gathered (p.files []) s k) in
      ticks-queue envs last q (suc env.now) (Works-All (envs ++ (last ∷ [])) p q _ r ws) k' c
      ∙ rw (r.files, tick-map env env.gathered (p.files [])) refl

  -- Over a whole run of the push loop, what the spool directory holds is what a queue of payloads
  -- holds: each tick first offers the queued payloads, the oldest first and up to the first refusal,
  -- then the fresh payload once, which joins the end of the queue where it is refused; of more than
  -- 100 the oldest are dropped. This is where all system calls work, the clock goes on from tick to
  -- tick within the numbers of 13 digits, and the directory holds at first what was spooled before.
  pub run_refines :
      (first : Env) (envs : List Env) (last : Env) (p : Pusher S)
      → Works first p
      → All (λ env. Works env p) (envs ++ (last ∷ []))
      → Stored first.now (p.files [])
      → Clocked first.now (envs ++ (last ∷ []))
      → map body_of ((run api marshal first envs last p).files [])
        ≡ queue_run first envs last (map body_of (p.files []))
  unfolding run
  run_refines first envs last p w ws h c =
      let l = retry_spool-Ticked first p first.now w h in
      let q = retry_spool first (start_tick p) in
      let r : Ticked p q (resend (up_of first) (p.files []) 0).0 = record {
        cfg = l.cfg;
        files = l.files;
      } in
      let k : Stored first.now (q.files []) =
        subst (Stored first.now) (sym r.files)
          (Stored-resend first.now (up_of first) (p.files []) 0 h) in
      let e : map body_of (q.files []) ≡ (resend (up_of first) (map body_of (p.files [])) 0).0 =
        rw (r.files, resend-map body_of (up_of first) (p.files []) 0) refl in
      ticks-queue envs last q first.now (Works-All (envs ++ (last ∷ [])) p q _ r ws) k c
      ∙ unfold tick in ap (λ fs. tick (up_of last) last.gathered (queue_ticks envs fs)) e
