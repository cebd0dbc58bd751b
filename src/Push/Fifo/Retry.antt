-- ===== src/Push/Fifo/Retry.antt =====
-- retrySpool on a directory in the order of its names takes the payloads off the front of the queue.
use topsrv.Base.{
  inr, inl, refl, false, length-append, Bool-cases, same, arith, codes, is_empty, subst, true,
  length, suc, All, ◌∷◌, ◌∙◌, Text, [], List, ◌≡◌, Bool, ℕ,
}
use topsrv.Push.State.{Pusher, Env, Op, File}
use topsrv.Push.{accepted, send, post, remove, retry_files, retry_spool, glob_sorted, matches}
use topsrv.Push.Listing.{Increasing, keep_rest, sort-Increasing, keep-matches}
use topsrv.Push.Fifo.{resend}

-- All system calls work, and the url of the metrics makes a request.
pub record Works {S : Type 0} (env : Env) (p : Pusher S) : Type 0 where
  pub ok : (op : Op) → env.ok op ≡ true
  pub request : env.request_ok p.cfg.endpoint ≡ true
  pub dir : is_empty p.cfg.spool_dir ≡ false

abbrev pub up_of : Env → ℕ → Bool
up_of env n = accepted (env.answer n)

-- What an operation leaves of the settings, the metrics' files and the number of requests.
pub record Left {S : Type 0} (p q : Pusher S) (fs : List File) (n : ℕ) : Type 0 where
  pub cfg : q.cfg ≡ p.cfg
  pub files : q.files [] ≡ fs
  pub requests : length q.requests ≡ n

module _ {S : Type 0} (env : Env) where
  pub send-Left :
      (body : Text) (p : Pusher S)
      → Works env p
      → Left p (send env body p).0 (p.files []) (suc (length p.requests))
  unfolding send post
  send-Left body p w =
      rw (w.request) (record {
        cfg = refl;
        files = refl;
        requests = omega (arith, length-append {0} p.requests);
      })

  pub send-up :
      (body : Text) (p : Pusher S)
      → Works env p
      → (send env body p).1 ≡ up_of env (length p.requests)
  unfolding send post
  send-up body p w = rw (w.request) refl

  pub remove-Left :
      (op : Op) (f : File) (fs : List File) (p q : Pusher S) (n : ℕ)
      → Works env p
      → Increasing (f ∷ fs)
      → Left p q (f ∷ fs) n
      → Left p (remove env op [] f.name q) fs n
  unfolding remove
  remove-Left op f fs p q n w inc h = rw (w.ok op) (record {
    cfg = h.cfg;
    files = rw (h.files) (unfold same in keep_rest f fs inc);
    requests = h.requests;
  })

  pub Left-trans :
      (p q r : Pusher S) (fs gs : List File) (m n : ℕ)
      → Left p q fs m
      → Left q r gs n
      → Left p r gs n
  Left-trans p q r fs gs m n h k = record {
    cfg = k.cfg ∙ h.cfg;
    files = k.files;
    requests = k.requests;
  }

  pub Works-Left :
      (p q : Pusher S) (fs : List File) (n : ℕ) → Works env p → Left p q fs n → Works env q
  Works-Left p q fs n w h = record {
    ok = w.ok;
    request = rw (h.cfg) (w.request);
    dir = rw (h.cfg) (w.dir);
  }

  pub retry_files-Left :
      (fs : List File) (p : Pusher S)
      → Works env p
      → Increasing fs
      → p.files [] ≡ fs
      → Left p
          (retry_files env fs p)
          (resend (up_of env) fs (length p.requests)).0
          (resend (up_of env) fs (length p.requests)).1
  unfolding retry_files resend
  retry_files-Left [] p w inc e = record { cfg = refl; files = e; requests = refl }
  retry_files-Left (f ∷ fs) p w (h, inc) e =
      let p' = (send env f.body p).0 in
      let s : Left p p' (p.files []) (suc (length p.requests)) = send-Left f.body p w in
      let s' : Left p p' (f ∷ fs) (suc (length p.requests)) =
        subst (λ t. Left p p' t (suc (length p.requests))) e s in
      let q = remove env (Op.remove_sent f.name) [] f.name p' in
      let r : Left p q fs (suc (length p.requests)) = remove-Left _ f fs p p' _ w (h, inc) s' in
      let ih : Left q (retry_files env fs q) (resend (up_of env) fs (length q.requests)).0
          (resend (up_of env) fs (length q.requests)).1 =
        retry_files-Left fs q (Works-Left p q _ _ w r) inc r.files in
      elim (Bool-cases (up_of env (length p.requests))) [
        | inl up ↦
            rw (w.ok (Op.read f.name), send-up f.body p w, up, ← r.requests)
              (Left-trans p q _ _ _ _ _ r ih)
        | inr down ↦ rw (w.ok (Op.read f.name), send-up f.body p w, down) s'
      ]

  -- Where every file of the directory is a payload of the metrics.
  pub retry_spool-Left :
      (p : Pusher S)
      → Works env p
      → Increasing (p.files [])
      → All (λ f. matches (codes "gz") f ≡ true) (p.files [])
      → Left p
          (retry_spool env p)
          (resend (up_of env) (p.files []) (length p.requests)).0
          (resend (up_of env) (p.files []) (length p.requests)).1
  unfolding retry_spool glob_sorted
  retry_spool-Left p w inc m =
      rw
        (
          w.dir,
          w.ok (Op.glob []),
          keep-matches (codes "gz") (p.files []) m,
          sort-Increasing (p.files []) inc,
        )
        (retry_files-Left (p.files []) p w inc refl)
