-- ===== src/Weblog/Observe/Tests.antt =====
-- Runs of both log observers on one line.
use topsrv.Base.{
  trim_space, cut_at, codes, [], ◌∷◌, refl, ◌≡◌, same, contains, ℕ, some, none, true, false, ◌^◌,
  ◌*◌, parse_uint_below,
}
use topsrv.Nginx.Line.{ParsedLine}
use topsrv.Botlog.Values.{field}
use topsrv.Botlog.Match.{match_ua}
use topsrv.Botlog.Event.{
  Seconds, Clock, Indices, BotObserver, Sink, last_upstream_status, first_upstream_time,
  behind_last, split_host, observe_bot,
}
use topsrv.Weblog.Lines.{Filtered, new_observer}
use topsrv.Weblog.Observe.{WebObserver}
use topsrv.Weblog.Observe.Agree.{bot_of}

abbrev seconds : Seconds ℕ
seconds = record {
  parse = parse_uint_below (2 ^ 16);
  negative = λ v. false;
  micros = λ v. v * 1000000;
}

abbrev clock : Clock
clock = record { lower = λ s. s; timestamp = λ s. none; now = 7 }

abbrev bot_line : ParsedLine
bot_line = record {
  status = codes "200";
  uri = codes "/a/:id";
  raw_uri = codes "/a/17?q=1";
  body_bytes_sent = codes "512";
  request_time = codes "3";
  upstream_response_time = codes "2, 1";
  upstream_cache_status = codes "-";
  method = codes "GET";
  time = codes "0";
  platform = [];
  app_version = [];
  visitor_id = [];
  request_id = codes "ab";
  upstream_status = codes "502, 200";
  extras = codes "Googlebot/2.1" ∷ codes "h:80" ∷ codes "api" ∷ [];
}

abbrev indices : Indices
indices = record {
  ua = some 0;
  host = some 1;
  server_name = none;
  remote_addr = none;
  referer = none;
}

abbrev web : WebObserver
web = record {
  hostname = codes "n";
  ua_truncate = 9;
  uri_truncate = 6;
  lines =
      new_observer (codes "/a.log" ∷ []) (codes "api" ∷ []) (codes "/static/" ∷ [])
        (codes "http_user_agent" ∷ codes "host" ∷ codes "proxy_host" ∷ [])
        (record { require_upstream = true; upstreams = true });
  idx = indices;
}

abbrev bot : BotObserver
bot = bot_of web

abbrev no_filtered : Filtered
no_filtered = record { by_path = 0; by_upstream = 0; by_proxy_host = 0; by_prefix = 0 }

abbrev empty_sink : Sink
empty_sink = record { events = []; matches = [] }

last_status : last_upstream_status (codes "502, 200") ≡ codes "200"
unfolding last_upstream_status behind_last trim_space
last_status = refl

first_time : first_upstream_time (codes "2, 1") ≡ codes "2"
unfolding first_upstream_time cut_at trim_space
first_time = refl

plain : split_host (codes "h:80") ≡ some (codes "h")
unfolding split_host cut_at
plain = refl

bracketed : split_host (codes "[::1]:80") ≡ some (codes "::1")
unfolding split_host cut_at
bracketed = refl

no_port : split_host (codes "[::1]") ≡ none
unfolding split_host cut_at
no_port = refl

counted : (observe_bot seconds clock bot bot_line empty_sink).matches ≡ codes "google" ∷ []
unfolding observe_bot match_ua contains same field
counted = refl
