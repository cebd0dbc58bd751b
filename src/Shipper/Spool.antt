-- ===== src/Shipper/Spool.antt =====
-- The spool of internal/topsrv/shipper/pusher.go: one file for a batch that could not be sent.
pub mod Budget
pub mod Kept
pub mod Replay
use topsrv.Base.{
  ℕ, suc, ◌+◌, ◌-◌, ◌*◌, Bool, true, false, not, ◌&&◌, ◌||◌, List, [], ◌∷◌, ◌++◌, Option, none,
  some, Text, same, codes, is_empty, text_lt, sort, keep, leb, ltb, eqb, length, if◌then◌else◌,
}
use topsrv.Shipper.State.{
  Pusher, Counters, Env, SpoolFile, Op, make_dir, write_tmp, rename_tmp, remove_tmp, glob, lstat,
  read_file, remove_file, stat_file,
}
use topsrv.Shipper.Send.{SendError, is_permanent_failure, send}

abbrev pub spool_suffix : Text
spool_suffix = codes ".ndjson.gz"

abbrev pub max_transient_per_run : ℕ
max_transient_per_run = 3

abbrev pub by_name : SpoolFile → SpoolFile → Bool
by_name a b = text_lt a.name b.name

abbrev other_than : Text → SpoolFile → Bool
other_than name f = not (same f.name name)

abbrev pub spool_name : Text → Text
spool_name id = id ++ spool_suffix

abbrev pub spool_file : Env → Text → Text → SpoolFile
spool_file env payload id = record {
  name = spool_name id;
  payload = payload;
  symlink = false;
  uid = some env.getuid;
}

abbrev pub budget_of : {E : Type 0} → Pusher E → ℕ
budget_of p = p.cfg.max_spool_mb * 1024 * 1024

pub record ReplayResult : Type 0 where
  pub sent : Bool
  pub transient : Bool

module _ {E : Type 0} (env : Env) where
  -- _ = os.Remove(path); the result says whether it worked.
  unfoldable pub remove : Text → Pusher E → Pusher E × Bool
  remove name p =
      if env.ok p.ids (remove_file name)
      then (record p { files = keep (other_than name) p.files }, true)
      else (p, false)

  -- The spool files oldest first, as the sorted glob gives them.
  unfoldable pub listing : Pusher E → List SpoolFile
  listing p =
      if is_empty p.cfg.spool_dir || not (env.ok p.ids glob) then [] else sort by_name p.files

  -- What Stat says of a file; an error counts for nothing.
  abbrev pub size_of : Pusher E → SpoolFile → ℕ
  size_of p f = if env.ok p.ids (stat_file f.name) then length f.payload else 0

  unfoldable pub usage : Pusher E → List SpoolFile → ℕ
  usage p [] = 0
  usage p (f ∷ fs) = size_of p f + usage p fs

  -- refreshSpoolMetrics, and setSpoolGauges of a scan.
  unfoldable pub refresh_spool_metrics : Pusher E → Pusher E
  refresh_spool_metrics p = record p {
    gauge_files = length (listing p);
    gauge_bytes = usage p (listing p);
  }

  evict : Text → Pusher E → Pusher E × Bool
  unfolding remove
  evict name p =
      let (p', done) = remove name p in
      if done
      then (
        record p' { counters = record p'.counters { drop_evict = p'.counters.drop_evict + 1 } },
        true,
      )
      else (p, false)

  -- The loop of trimSpool. The sizes are those of the scan before it.
  unfoldable pub trim_loop : ℕ → List (SpoolFile × ℕ) → ℕ → Pusher E → Pusher E
  unfolding evict
  trim_loop budget [] total p = p
  trim_loop budget ((f, size) ∷ fs) total p =
      let (p', done) = evict f.name p in
      let rest = trim_loop budget fs (if done then total - size else total) p' in
      if leb total budget then p else rest

  unfoldable pub sized : Pusher E → List SpoolFile → List (SpoolFile × ℕ)
  sized p [] = []
  sized p (f ∷ fs) = (f, size_of p f) ∷ sized p fs

  unfoldable pub trim_spool : Pusher E → Pusher E
  trim_spool p =
      let scanned = listing p in
      if leb (usage p scanned) (budget_of p)
      then refresh_spool_metrics p
      else refresh_spool_metrics (trim_loop (budget_of p) (sized p scanned) (usage p scanned) p)

  drop_write : Pusher E → Pusher E
  drop_write p = record p {
    counters = record p.counters { drop_spool_write = p.counters.drop_spool_write + 1 };
  }

  -- os.Rename replaces a file of the same name.
  store : Text → Text → Pusher E → Pusher E
  store payload id p = record p {
    files = spool_file env payload id ∷ keep (other_than (spool_name id)) p.files;
    counters = record p.counters { spooled = p.counters.spooled + 1 };
  }

  -- The .tmp file that a failed rename leaves where it cannot be removed either.
  leave_tmp : Text → Pusher E → Pusher E
  leave_tmp id p = if env.ok p.ids remove_tmp then p else record p { tmps = spool_name id ∷ p.tmps }

  -- A write that fails is taken to leave its .tmp file.
  pub spool : Text → Text → Pusher E → Pusher E
  spool payload id p =
      if is_empty p.cfg.spool_dir || not (env.ok p.ids make_dir)
      then drop_write p
      else if not (env.ok p.ids write_tmp)
      then drop_write (record p { tmps = spool_name id ∷ p.tmps })
      else if not (env.ok p.ids rename_tmp)
      then drop_write (leave_tmp id p)
      else trim_spool (store payload id p)

  -- ownsSpoolFile
  unfoldable pub owns_spool_file : Pusher E → SpoolFile → Bool
  owns_spool_file p f =
      if not (env.ok p.ids (lstat f.name)) || f.symlink
      then false
      else elim f.uid [ none ↦ true | some u ↦ eqb u env.getuid ]

  replay_sent : Text → Pusher E → Option SendError → Pusher E × ReplayResult
  replay_sent name p none = ((remove name p).0, record { sent = true; transient = false })
  replay_sent name p (some err) =
      if is_permanent_failure err
      then ((remove name p).0, record { sent = false; transient = false })
      else (p, record { sent = false; transient = true })

  unfoldable pub replay_one : SpoolFile → Pusher E → Pusher E × ReplayResult
  unfolding replay_sent
  replay_one f p =
      if not (owns_spool_file p f)
      then (let p' = (remove f.name p).0 in
          (
            record p' { counters = record p'.counters { drop_evict = p'.counters.drop_evict + 1 } },
            record { sent = false; transient = false },
          ))
      else if not (env.ok p.ids (read_file f.name))
      then ((remove f.name p).0, record { sent = false; transient = false })
      else (let (p', err) = send env p in replay_sent f.name p' err)

  -- The loop of retrySpool; the number counts transient failures.
  unfoldable pub retry_loop : List SpoolFile → ℕ → Pusher E → Pusher E × ℕ
  retry_loop [] fails p = (p, fails)
  retry_loop (f ∷ fs) fails p =
      let (p', r) = replay_one f p in
      let rest = retry_loop fs (if r.transient then fails + 1 else fails) p' in
      if leb max_transient_per_run fails then (p, fails) else rest

  unfoldable pub retry_spool : Pusher E → Pusher E
  retry_spool p = elim (listing p) [
    | [] ↦ p
    | f ∷ fs ↦ refresh_spool_metrics (retry_loop (f ∷ fs) 0 p).0
  ]

  -- cleanupSpoolTmp, where every removal works.
  pub cleanup_spool_tmp : Pusher E → Pusher E
  cleanup_spool_tmp p =
      if is_empty p.cfg.spool_dir || not (env.ok p.ids glob) then p else record p { tmps = [] }
