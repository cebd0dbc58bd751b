-- ===== src/Push/Fifo/Store.antt =====
-- spool on a directory in the order of its names appends a payload and drops the oldest ones.
use topsrv.Base.{
  sym, subst, refl, arith, same, zero, inr, All-append, ◌-◌, suc, inl, ◌∷◌, ◌++◌, drop, length, ltb,
  take, Bool-cases, All, true, [], ◌≡◌, codes, List, Text, ℕ,
}
use topsrv.Push.State.{Pusher, Env, Op, File}
use topsrv.Push.{
  write_file, trim, drop_files, spool, spool_file, push_metrics, send, matches, file_name,
  with_files, glob_sorted,
}
use topsrv.Push.Listing.{
  Increasing, Increasing-append, Before, keep-Before, keep-matches, sort-Increasing,
  has_suffix-append,
}
use topsrv.Push.Fifo.{newest, offer}
use topsrv.Push.Fifo.Retry.{
  Works, Works-Left, Left, Left-trans, remove-Left, send-Left, send-up, up_of,
}

abbrev pub Gz : File → Type 0
Gz f = matches (codes "gz") f ≡ true

abbrev pub fresh_file : Env → Text → File
fresh_file env body = record { name = file_name [] env.now (codes "gz"); body = body }

pub Gz-fresh_file : (env : Env) (body : Text) → Gz (fresh_file env body)
Gz-fresh_file env body = has_suffix-append _ (codes ".gz")

module _ {S : Type 0} (env : Env) where
  drop_files-Left :
      (n : ℕ) (fs : List File) (p q : Pusher S) (k : ℕ)
      → Works env p
      → Increasing fs
      → Left p q fs k
      → Left p (drop_files env [] (take n fs) q) (drop n fs) k
  unfolding drop_files
  drop_files-Left zero fs p q k w inc h = h
  drop_files-Left (suc n) [] p q k w inc h = h
  drop_files-Left (suc n) (f ∷ fs) p q k w (a, inc) h =
      drop_files-Left n fs p _ k w inc
        (remove-Left env (Op.drop_oldest f.name) f fs p q k w (a, inc) h)

  trim-Left :
      (fs : List File) (p q : Pusher S) (k : ℕ)
      → Works env p
      → Increasing fs
      → Left p q fs k
      → Left p (trim env [] fs q) (newest fs) k
  unfolding trim
  trim-Left fs p q k w inc h = elim (Bool-cases (ltb 100 (length fs))) [
    | inl over ↦ rw over (drop_files-Left (length fs - 100) fs p q k w inc h)
    | inr fits ↦ let e : length fs - 100 ≡ 0 = ground (arith, fits) in rw (fits, e) h
  ]

  pub spool-Left :
      (body : Text) (p : Pusher S)
      → Works env p
      → Increasing (p.files [])
      → All Gz (p.files [])
      → All (Before (file_name [] env.now (codes "gz"))) (p.files [])
      → Left p
          (spool env body p)
          (newest (p.files [] ++ (fresh_file env body ∷ [])))
          (length p.requests)
  unfolding spool spool_file glob_sorted write_file
  spool-Left body p w inc m b =
      let f = fresh_file env body in
      let fs : List File = p.files [] ++ (f ∷ []) in
      let inc' : Increasing fs = Increasing-append f (p.files []) b inc in
      let m' : All Gz fs = All-append Gz (p.files []) (f ∷ []) m (Gz-fresh_file env body, tt) in
      let written : Left p (with_files env [] fs p) fs (length p.requests) =
        unfold same in record { cfg = refl; files = refl; requests = refl } in
      rw
        (
          w.dir,
          w.ok (Op.mkdir []),
          w.ok (Op.write f.name),
          w.ok (Op.glob []),
          keep-Before f.name (p.files []) b,
        )
        (unfold same in
          rw (keep-matches (codes "gz") fs m', sort-Increasing fs inc')
            (trim-Left fs p (with_files env [] fs p) (length p.requests) w inc' written))

  spool-after :
      (body : Text) (p p' : Pusher S) (fs : List File) (k : ℕ)
      → Works env p
      → Increasing fs
      → All Gz fs
      → All (Before (file_name [] env.now (codes "gz"))) fs
      → Left p p' fs k
      → Left p (spool env body p') (newest (fs ++ (fresh_file env body ∷ []))) k
  spool-after body p p' fs k w inc m b h =
      let P : List File → Type 0 =
        λ gs. Increasing gs × All Gz gs × All (Before (file_name [] env.now (codes "gz"))) gs in
      let (inc', m', b') : P (p'.files []) = subst P (sym h.files) (inc, m, b) in
      let r : Left p' (spool env body p') (newest (p'.files [] ++ (fresh_file env body ∷ [])))
          (length p'.requests) =
        spool-Left body p' (Works-Left env p p' fs k w h) inc' m' b' in
      let r' : Left p' (spool env body p') (newest (fs ++ (fresh_file env body ∷ []))) k =
        subst (λ gs. Left p' (spool env body p') (newest (gs ++ (fresh_file env body ∷ []))) k)
          h.files
          (subst
            (λ n.
              Left p' (spool env body p') (newest (p'.files [] ++ (fresh_file env body ∷ []))) n)
            h.requests r) in
      Left-trans env p p' _ fs _ k k h r'

  -- What is left of one payload, sent or spooled.
  pub push_metrics-Left :
      (body : Text) (p : Pusher S)
      → Works env p
      → Increasing (p.files [])
      → All Gz (p.files [])
      → All (Before (file_name [] env.now (codes "gz"))) (p.files [])
      → Left p
          (push_metrics env body p)
          (offer (up_of env) (fresh_file env body) (p.files [], length p.requests))
          (suc (length p.requests))
  unfolding push_metrics offer
  push_metrics-Left body p w inc m b =
      let p' = (send env body p).0 in
      let s : Left p p' (p.files []) (suc (length p.requests)) = send-Left env body p w in
      elim (Bool-cases (up_of env (length p.requests))) [
        | inl up ↦ rw (send-up env body p w, up) s
        | inr down ↦
            rw (send-up env body p w, down)
              (spool-after body p p' (p.files []) (suc (length p.requests)) w inc m b s)
      ]
