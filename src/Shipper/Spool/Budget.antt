-- ===== src/Shipper/Spool/Budget.antt =====
-- The budget of the spool: which files trimSpool evicts.
use topsrv.Base.{
  ℕ, zero, suc, ◌+◌, ◌-◌, ◌≡◌, ◌≤◌, ◌<◌, inl, inr, refl, arith, true, false, List, [], ◌∷◌, Text,
  take, drop, keep, leb, Bool-cases,
}
use topsrv.Shipper.State.{Pusher, Env, SpoolFile, remove_file}
use topsrv.Shipper.Spool.{
  remove, listing, size_of, usage, evict, trim_loop, sized, budget_of, trim_spool,
  refresh_spool_metrics, other_than,
}

-- The files that are left after the removal of some names.
abbrev without : List Text → List SpoolFile → List SpoolFile
without [] files = files
without (name ∷ names) files = without names (keep (other_than name) files)

abbrev pub names_of : List SpoolFile → List Text
names_of [] = []
names_of (f ∷ fs) = f.name ∷ names_of fs

-- The n first of the files are evicted, and no fewer would do.
pub record Evicted {E : Type 0} (env : Env) (scanned : Pusher E) (fs : List SpoolFile)
    (p q : Pusher E) : Type 0 where
  pub count : ℕ
  pub files : q.files ≡ without (names_of (take count fs)) p.files
  pub counted : q.counters.drop_evict ≡ p.counters.drop_evict + count
  pub fits : usage env scanned (drop count fs) ≤ budget_of p
  pub least : (n : ℕ) → n < count → budget_of p < usage env scanned (drop n fs)

module _ {E : Type 0} (env : Env) where
  abbrev evicted : Text → Pusher E → Pusher E
  evicted name p = record p {
    files = keep (other_than name) p.files;
    counters = record p.counters { drop_evict = p.counters.drop_evict + 1 };
  }

  evict_works :
      (name : Text) (p : Pusher E)
      → env.ok p.ids (remove_file name) ≡ true
      → evict env name p ≡ (evicted name p, true)
  unfolding evict remove
  evict_works name p works = rw (works, remove) refl

  least_suc :
      (scanned : Pusher E) (f : SpoolFile) (fs : List SpoolFile) (budget count : ℕ)
      → budget < usage env scanned (f ∷ fs)
      → ((n : ℕ) → n < count → budget < usage env scanned (drop n fs))
      → (n : ℕ) → n < suc count
      → budget < usage env scanned (drop n (f ∷ fs))
  least_suc scanned f fs budget count over least zero lt = over
  least_suc scanned f fs budget count over least (suc n) lt = least n (omega arith)

  Evicted-suc :
      (scanned : Pusher E) (f : SpoolFile) (fs : List SpoolFile) (p q : Pusher E)
      → budget_of p < usage env scanned (f ∷ fs)
      → Evicted env scanned fs (evicted f.name p) q
      → Evicted env scanned (f ∷ fs) p q
  Evicted-suc scanned f fs p q over h = record {
    count = suc h.count;
    files = h.files;
    counted = omega (arith, h.counted);
    fits = h.fits;
    least = least_suc scanned f fs (budget_of p) h.count over h.least;
  }

  rest_usage :
      (scanned : Pusher E) (f : SpoolFile) (fs : List SpoolFile)
      → usage env scanned (f ∷ fs) - size_of env scanned f ≡ usage env scanned fs
  unfolding usage
  rest_usage scanned f fs = omega arith

  Evicted-loop :
      (scanned : Pusher E) (f : SpoolFile) (fs : List SpoolFile) (p : Pusher E)
      → leb (usage env scanned (f ∷ fs)) (budget_of p) ≡ false
      → env.ok p.ids (remove_file f.name) ≡ true
      → Evicted env scanned fs (evicted f.name p) (
          trim_loop env
            (budget_of p)
            (sized env scanned fs)
            (usage env scanned fs)
            (evicted f.name p))
      → Evicted env scanned
          (f ∷ fs)
          p
          (trim_loop env (budget_of p) (sized env scanned (f ∷ fs)) (usage env scanned (f ∷ fs)) p)
  unfolding sized trim_loop
  Evicted-loop scanned f fs p over works rest =
      rw (over, trim_loop, evict_works f.name p works, rest_usage scanned f fs)
        (Evicted-suc scanned f fs p _ (ground arith) rest)

  trim_loop-Evicted :
      (scanned : Pusher E) (fs : List SpoolFile) (p : Pusher E)
      → ((name : Text) → env.ok p.ids (remove_file name) ≡ true)
      → Evicted env scanned fs p
          (trim_loop env (budget_of p) (sized env scanned fs) (usage env scanned fs) p)
  trim_loop-Evicted scanned [] p works =
      unfold trim_loop sized usage in
      record {
        count = 0;
        files = refl;
        counted = omega arith;
        fits = omega arith;
        least = λ n lt. absurd (omega arith);
      }
  trim_loop-Evicted scanned (f ∷ fs) p works =
      elim (Bool-cases (leb (usage env scanned (f ∷ fs)) (budget_of p))) [
        | inl t ↦
            unfold trim_loop sized in
            rw (t, trim_loop)
              (record {
                count = 0;
                files = refl;
                counted = omega arith;
                fits = ground arith;
                least = λ n lt. absurd (omega arith);
              })
        | inr t ↦
            Evicted-loop scanned f fs p t (works f.name)
              (trim_loop-Evicted scanned fs (evicted f.name p) works)
      ]

  refresh-Evicted :
      (scanned : Pusher E) (fs : List SpoolFile) (p q : Pusher E)
      → Evicted env scanned fs p q
      → Evicted env scanned fs p (refresh_spool_metrics env q)
  unfolding refresh_spool_metrics
  refresh-Evicted scanned fs p q h = record {
    count = h.count;
    files = h.files;
    counted = h.counted;
    fits = h.fits;
    least = h.least;
  }

  -- If the removals work, trimSpool evicts the files first by name, counts each once, and stops as
  -- soon as what is left fits: the sizes of the scanned files that remain are within MaxSpoolMB, and
  -- evicting fewer would not do.
  pub trim_spool-Evicted :
      (p : Pusher E)
      → ((name : Text) → env.ok p.ids (remove_file name) ≡ true)
      → Evicted env p (listing env p) p (trim_spool env p)
  trim_spool-Evicted p works = elim (Bool-cases (leb (usage env p (listing env p)) (budget_of p))) [
    | inl t ↦
        unfold trim_spool in
        rw (t, trim_spool)
          (refresh-Evicted p (listing env p) p p (record {
            count = 0;
            files = refl;
            counted = omega arith;
            fits = ground arith;
            least = λ n lt. absurd (omega arith);
          }))
    | inr t ↦
        unfold trim_spool in
        rw (t, trim_spool)
          (refresh-Evicted p (listing env p) p _ (trim_loop-Evicted p (listing env p) p works))
  ]
