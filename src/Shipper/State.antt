-- ===== src/Shipper/State.antt =====
-- The Pusher of internal/topsrv/shipper/pusher.go, and what answers its calls.
-- Counters and gauges are numbers without a bound (they are float64 in the code).
use topsrv.Base.{ℕ, ◌*◌, Bool, List, [], Option, Text, leb, if◌then◌else◌}

-- int(n) is positive or not; a number stands for it, and 0 for all that is not positive.
pub record Options : Type 0 where
  pub endpoint : Text
  pub token : Text
  pub batch_size : ℕ
  pub batch_interval : ℕ
  pub spool_dir : Text
  pub max_spool_mb : ℕ

abbrev pub default_batch_size : ℕ
default_batch_size = 5000

-- In nanoseconds.
abbrev pub default_batch_interval : ℕ
default_batch_interval = 30000000000

abbrev pub default_max_spool_mb : ℕ
default_max_spool_mb = 200

-- A file of the spool directory, as Lstat and ReadFile see it.
pub record SpoolFile : Type 0 where
  pub name : Text
  pub payload : Text
  pub symlink : Bool
  pub uid : Option ℕ  -- none where the system has no Stat_t

pub record Counters : Type 0 where
  pub enqueued : ℕ
  pub sent : ℕ
  pub spooled : ℕ
  pub drop_queue_full : ℕ
  pub drop_permanent : ℕ
  pub drop_spool_write : ℕ
  pub drop_evict : ℕ
  pub err_connect : ℕ
  pub err_timeout : ℕ
  pub err_status : ℕ

pub record Pusher (E : Type 0) : Type 0 where
  pub cfg : Options
  pub queue : List E
  pub counters : Counters
  pub files : List SpoolFile  -- SpoolDir/*.ndjson.gz
  pub tmps : List Text  -- SpoolDir/*.ndjson.gz.tmp
  pub gauge_files : ℕ
  pub gauge_bytes : ℕ
  pub sends : ℕ  -- requests made so far
  pub ids : ℕ  -- batch ids drawn so far

-- How a request ends.
pub data Response : Type 0 where
  no_request : Response  -- NewRequestWithContext failed
  timed_out : Response
  unreachable : Response
  status : ℕ → Response

pub data Op : Type 0 where
  make_dir write_tmp rename_tmp remove_tmp glob : Op
  lstat read_file remove_file stat_file : Text → Op

-- Whatever is not the Pusher's: the answer to the n-th request, whether the context is done when its
-- backoff ends, the n-th batch id, the system calls between two batch ids, and the user.
pub record Env : Type 0 where
  pub response : ℕ → Response
  pub cancelled : ℕ → Bool
  pub batch_id : ℕ → Text
  pub ok : ℕ → Op → Bool
  pub getuid : ℕ

unfoldable pub no_counters : Counters
no_counters = record {
  enqueued = 0;
  sent = 0;
  spooled = 0;
  drop_queue_full = 0;
  drop_permanent = 0;
  drop_spool_write = 0;
  drop_evict = 0;
  err_connect = 0;
  err_timeout = 0;
  err_status = 0;
}

-- cfg.BatchSize <= 0 and the like take the default.
abbrev pub default_to : ℕ → ℕ → ℕ
default_to d n = if leb n 0 then d else n

unfoldable pub new_pusher : {E : Type 0} → Options → List SpoolFile → List Text → Pusher E
new_pusher cfg files tmps = record {
  cfg = record cfg {
    batch_size = default_to default_batch_size cfg.batch_size;
    batch_interval = default_to default_batch_interval cfg.batch_interval;
    max_spool_mb = default_to default_max_spool_mb cfg.max_spool_mb;
  };
  queue = [];
  counters = no_counters;
  files = files;
  tmps = tmps;
  gauge_files = 0;
  gauge_bytes = 0;
  sends = 0;
  ids = 0;
}

abbrev pub queue_cap : {E : Type 0} → Pusher E → ℕ
queue_cap p = p.cfg.batch_size * 2
