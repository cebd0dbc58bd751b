-- ===== src/Nginx/Record/Tests.antt =====
-- Labels and metrics of small logs.
use topsrv.Base.{
  refl, ◌≡◌, ◌+◌, same, zero, leb, if◌then◌else◌, contains, ◌^◌, pos, suc, parse_uint_below, Text,
  codes, has_prefix, ◌∷◌, List, [], some, ℕ,
}
use topsrv.Nginx.Paths.{normalize_path}
use topsrv.Nginx.Line.{ParsedLine, Names, fill_line}
use topsrv.Nginx.UriCounters.{UriCounters}
use topsrv.Nginx.Record.{Floats, Metrics, no_observation}

number_test : normalize_path (codes "/news/12345") ≡ codes "/news/:id"
unfolding normalize_path has_prefix contains same topsrv.Nginx.Regex.replace_all
number_test = refl

slug_test : normalize_path (codes "/p/red-shoes/x/y") ≡ codes "/p/:slug/:rest"
unfolding normalize_path has_prefix contains same topsrv.Nginx.Regex.replace_all
slug_test = refl

abbrev get : Text → Text
get name = if same name (codes "request") then codes "GET /news/12345?a=1 HTTP/1.1" else []

-- Milliseconds; the bounds are those of the code.
abbrev get_or : ℕ → List ℕ → ℕ
get_or i [] = 0
get_or zero (b ∷ bs) = b
get_or (suc i) (b ∷ bs) = get_or i bs

abbrev bound_ms : ℕ → ℕ
bound_ms i = get_or i (5 ∷ 10 ∷ 25 ∷ 50 ∷ 100 ∷ 250 ∷ 500 ∷ 1000 ∷ 2500 ∷ 5000 ∷ 10000 ∷ [])

abbrev millis : Floats ℕ
millis = record {
  parse = λ s. parse_uint_below (2 ^ 63) s;
  below = λ v i. leb v (bound_ms i);
  zero_sum = 0;
  plus = λ a b. a + b;
}

abbrev counters : {K : Type 0} → UriCounters K
counters = record { m = []; limit = 1000; last_sweep = 0 }

abbrev empty : Metrics ℕ
empty = record {
  label_idx = some 0 ∷ [];
  requests = no_observation millis;
  upstream = no_observation millis;
  status_counts = [];
  tagged_counts = [];
  cache_counts = [];
  uri5xx = counters;
  uri4xx = counters;
  bytes_by_uri = counters;
  bytes_total = pos 0;
}

abbrev names : Names
names = record { extract_fields = codes "server_name" ∷ []; method_field = []; time_field = [] }

abbrev line : Text → ParsedLine
line ms = record (fill_line names get) { status = codes "404"; request_time = ms }
