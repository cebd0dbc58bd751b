-- ===== src/Push/Tests.antt =====
-- Runs of the push loop on small inputs.
use topsrv.Base.{
  ◌+◌, same, Option, Text, if◌then◌else◌, ◌≡◌, some, none, List, arith, ◌∷◌, [], true, map, codes,
  refl, ℕ,
}
use topsrv.Push.State.{Pusher, Env, Config, File, Answer, answered, no_answer}
use topsrv.Push.{file_name}
use topsrv.Push.Inventory.{InventoryProvider, Payload, run, send_one_inventory}
use topsrv.Push.Fifo.Run.{run_refines, queue_run}
use topsrv.Push.Fifo.Steps.{body_of}
use topsrv.Push.Fifo.Retry.{Works}
use topsrv.Push.Fifo.Stored.{Stored}
use topsrv.Push.Acks.{Settled, send_one_inventory-Settled}

abbrev cfg : Config
cfg = record {
  endpoint = codes "https://c.example/v1/write";
  token = codes "t";
  interval = codes "30s";
  spool_dir = codes "/spool";
}

abbrev old : List File
old = record { name = file_name [] 1700000000000 (codes "gz"); body = 7 ∷ [] } ∷ []

abbrev start : Pusher ℕ
start = record {
  cfg = cfg;
  hostname = codes "h";
  meta_endpoint = codes "https://c.example/v1/meta";
  inventory_endpoint = codes "https://c.example/v1/inventory";
  providers = 0 ∷ [];
  meta_providers = [];
  files = λ d. if same d [] then old else [];
  requests = [];
}

abbrev at : ℕ → Answer → Env
at ms answer = record {
  ok = λ op. true;
  request_ok = λ url. true;
  answer = λ n. answer;
  gathered = some (ms ∷ []);
  now = ms;
}

abbrev quiet : InventoryProvider ℕ
quiet = record { inventory = λ s. ([], s); on_inventory_pushed = none }

abbrev counting : InventoryProvider ℕ
counting = record { inventory = λ s. ([], s); on_inventory_pushed = some (λ kind s. s + 1) }

abbrev marshal : List Text → Option Text
marshal queries = none

abbrev down : ℕ → Env
down ms = at ms no_answer

abbrev up : ℕ → Env
up ms = at ms (answered 204)

works : (ms : ℕ) (a : Answer) → Works (at ms a) start
works ms a = record { ok = λ op. refl; request = refl; dir = refl }

stored : Stored 1700000000001 old
stored = record {
  increasing = (tt, tt);
  stamped = ((1700000000000, omega arith, omega arith, refl), tt);
}

-- The server is down for the first two ticks and up when the loop ends.
run_refines_example :
    map body_of (
      (run quiet marshal
          (down 1700000000001)
          (down 1700000000002 ∷ [])
          (up 1700000000003)
          start).files
        [])
    ≡ queue_run (down 1700000000001) (down 1700000000002 ∷ []) (up 1700000000003) ((7 ∷ []) ∷ [])
unfolding same
run_refines_example =
    run_refines quiet marshal (down 1700000000001) (down 1700000000002 ∷ []) (up 1700000000003)
      start (works 1700000000001 no_answer)
      (works 1700000000002 no_answer, (works 1700000000003 (answered 204), tt)) stored (omega arith)

-- Nothing is left, and what was spooled has been sent.
queue_run_test :
    queue_run (down 1700000000001) (down 1700000000002 ∷ []) (up 1700000000003) ((7 ∷ []) ∷ []) ≡ []
unfolding topsrv.Push.Fifo.tick
queue_run_test = refl

abbrev payload : Payload
payload = record { kind = codes "packages"; marshalled = some (1 ∷ []) }

send_one_inventory-Settled_example :
    Settled counting
      (up 1700000000001)
      (codes "packages")
      (1 ∷ [])
      4
      (send_one_inventory counting (up 1700000000001) payload 4 start).1
      start
      (send_one_inventory counting (up 1700000000001) payload 4 start).0
unfolding same
send_one_inventory-Settled_example =
    send_one_inventory-Settled counting (up 1700000000001) payload (1 ∷ []) 4 start refl refl
      (λ op. refl) (omega arith)
