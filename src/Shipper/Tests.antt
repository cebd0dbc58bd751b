-- ===== src/Shipper/Tests.antt =====
-- Runs of the shipper on small inputs.
use topsrv.Base.{
  ℕ, zero, suc, ◌≡◌, refl, arith, Bool, true, false, List, [], ◌∷◌, Option, some, Text, codes,
}
use topsrv.Shipper.State.{Pusher, Env, Options, SpoolFile, status, timed_out, new_pusher}
use topsrv.Shipper.Spool.{listing, trim_spool}
use topsrv.Shipper.Spool.Budget.{Evicted, trim_spool-Evicted}
use topsrv.Shipper.Run.{Move, offer, receive, tick, flush, drain_and_flush_all, run}
use topsrv.Shipper.Run.Flush.{Accounted, flush_accounts}
use topsrv.Shipper.Run.Drain.{Shutdown, drain_and_flush_all_lem}
use topsrv.Shipper.Run.Queue.{Good, offers}
use topsrv.Shipper.Run.Conserved.{run_conserves}

abbrev cfg : Options
cfg = record {
  endpoint = codes "https://c.example";
  token = codes "t";
  batch_size = 2;
  batch_interval = 1000;
  spool_dir = codes "/spool";
  max_spool_mb = 1;
}

-- The first request times out, the later ones are accepted; all system calls work.
abbrev later : Env
later = record {
  response = λ n. elim n [ zero ↦ timed_out | suc m ↦ status 202 ];
  cancelled = λ n. false;
  batch_id = λ n. codes "7-a";
  ok = λ n op. true;
  getuid = 1000;
}

-- Every request fails in a way that may pass.
abbrev down : Env
down = record later { response = λ n. status 503 }

abbrev old_file : SpoolFile
old_file = record {
  name = codes "1-b.ndjson.gz";
  payload = 1 ∷ 2 ∷ [];
  symlink = false;
  uid = some 1000;
}

abbrev new_file : SpoolFile
new_file = record old_file { name = codes "2-c.ndjson.gz" }

abbrev start : Pusher ℕ
start = new_pusher cfg (new_file ∷ old_file ∷ []) (codes "x" ∷ [])

abbrev encode : List ℕ → Option Text
encode b = some b

abbrev none_left : ℕ → Bool
none_left n = false

flush_accounts_example : Accounted 2 start (flush encode down (5 ∷ 6 ∷ []) start)
flush_accounts_example = flush_accounts encode down 5 (6 ∷ []) (5 ∷ 6 ∷ []) start refl

abbrev queued : Pusher ℕ
queued = record start { cfg = cfg; queue = 1 ∷ 2 ∷ 3 ∷ [] }

drain_and_flush_all_lem_example :
    Shutdown encode later none_left
      (9 ∷ [])
      queued
      (drain_and_flush_all encode later none_left (9 ∷ []) queued)
drain_and_flush_all_lem_example =
    drain_and_flush_all_lem encode later none_left (9 ∷ []) queued (omega arith) (omega arith)

abbrev schedule : List (Move ℕ)
schedule = offer 1 ∷ receive ∷ offer 2 ∷ tick ∷ offer 3 ∷ receive ∷ receive ∷ []

abbrev ended : Pusher ℕ
ended =
    run encode later none_left schedule (new_pusher cfg (new_file ∷ old_file ∷ []) (codes "x" ∷ []))

run_conserves_example : (ended.queue ≡ []) × Good (offers schedule) 0 ended
run_conserves_example =
    run_conserves encode later (λ b. (b, refl)) none_left cfg (new_file ∷ old_file ∷ [])
      (codes "x" ∷ []) schedule

abbrev crowded : Pusher ℕ
crowded = record start { cfg = record cfg { max_spool_mb = 0 } }

trim_spool-Evicted_example :
    Evicted later crowded (listing later crowded) crowded (trim_spool later crowded)
trim_spool-Evicted_example = trim_spool-Evicted later crowded (λ name. refl)
