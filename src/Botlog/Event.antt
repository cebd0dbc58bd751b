-- ===== src/Botlog/Event.antt =====
-- The event of a log line, internal/topsrv/botlog: BuildEvent, NewEvent, and OnLogLine of the bot
-- stream. The floating-point numbers, the letter case of Unicode and the clock are arguments.
pub mod Bounded
use topsrv.Base.{
  codes, same, ◌&&◌, lacks, ◌||◌, [], eqb, some, none, is_empty, cut_at, ◌∷◌, Bool, ◌-◌, ltb, false,
  trim_space, Option, if◌then◌else◌, List, ◌^◌, Text, ℕ,
}
use topsrv.Nginx.Line.{ParsedLine}
use topsrv.Shipper.Event.{Event}
use topsrv.Botlog.Values.{
  truncate, dash_to_empty, sanitize_request_id, parse_status, parse_uint32, field, index_or_skip,
}
use topsrv.Botlog.Match.{match_ua}

-- ParseFloat, v < 0, and the whole part of v * 1e6.
pub record Seconds (F : Type 0) : Type 0 where
  pub parse : Text → Option F
  pub negative : F → Bool
  pub micros : F → ℕ

-- strings.ToLower, and ParsedLine.Timestamp of a time as logged.
pub record Clock : Type 0 where
  pub lower : Text → Text
  pub timestamp : Text → Option ℕ
  pub now : ℕ

pub record RawFields : Type 0 where
  pub status : Text
  pub uri : Text
  pub body_bytes_sent : Text
  pub request_time : Text
  pub upstream_response_time : Text
  pub upstream_cache_status : Text
  pub user_agent : Text
  pub host : Text
  pub server_name : Text
  pub remote_addr : Text
  pub referer : Text
  pub method : Text
  pub request_id : Text
  pub upstream_status : Text

-- What stands behind the last comma, or all.
unfoldable pub behind_last : Text → Text → Text
behind_last best [] = best
behind_last best (c ∷ s) = behind_last (if eqb c b',' then s else best) s

unfoldable pub last_upstream_status : Text → Text
unfolding behind_last
last_upstream_status s = trim_space (behind_last s s)

abbrev pub max_uint32 : ℕ
max_uint32 = 2 ^ 32 - 1

abbrev pub capped : ℕ → ℕ
capped us = if ltb max_uint32 us then max_uint32 else us

unfoldable pub first_upstream_time : Text → Text
first_upstream_time s = elim (cut_at b',' s) [
  | none ↦ s
  | some (first, rest) ↦ if is_empty first then s else trim_space first
]

abbrev pub max_host_len : ℕ
max_host_len = 256

-- What stands before and behind the last colon.
abbrev pub last_colon : Text → Option (Text × Text)
last_colon [] = none
last_colon (c ∷ s) = elim (last_colon s) [
  | some (a, b) ↦ some (c ∷ a, b)
  | none ↦ if eqb c b':' then some ([], s) else none
]

-- Whether the host may stand there: no bracket in the host and in the port.
abbrev pub no_brackets : Text → Bool
no_brackets s = lacks b'[' s && lacks b']' s

abbrev pub plain_host : Text → Option Text
plain_host s = elim (last_colon s) [
  | none ↦ none
  | some (host, port) ↦
      if lacks b':' host && no_brackets host && no_brackets port then some host else none
]

-- Behind the bracket: the host up to the other one, then a colon and a port without brackets.
abbrev pub bracketed_host : Text → Option Text
bracketed_host s = elim (cut_at b']' s) [
  | none ↦ none
  | some (host, rest) ↦ elim rest [
    | [] ↦ none
    | c ∷ port ↦
        if eqb c b':' && lacks b':' port && lacks b'[' host && no_brackets port
        then some host
        else none
  ]
]

-- The host of net.SplitHostPort, where it gives no error.
unfoldable pub split_host : Text → Option Text
split_host [] = none
split_host (c ∷ s) = if eqb c b'[' then bracketed_host s else plain_host (c ∷ s)

abbrev or_whole : Text → Option Text → Text
or_whole s none = s
or_whole s (some host) = host

module _ {F : Type 0} (secs : Seconds F) (clock : Clock) where
  unfoldable pub normalize_host : Text → Text
  unfolding split_host truncate
  normalize_host s =
      clock.lower (or_whole (truncate s max_host_len) (split_host (truncate s max_host_len)))

  abbrev pub micros_of : Option F → ℕ
  micros_of none = 0
  micros_of (some v) = if secs.negative v then 0 else capped (secs.micros v)

  unfoldable pub parse_seconds_to_micros : Text → ℕ
  parse_seconds_to_micros s =
      if is_empty s || same s (codes "-") then 0 else micros_of (secs.parse s)

  unfoldable pub build_event : ℕ → Text → RawFields → Text → Text → ℕ → Event
  unfolding normalize_host parse_seconds_to_micros first_upstream_time last_upstream_status
      dash_to_empty parse_status parse_uint32 sanitize_request_id truncate
  build_event ts agent_hostname f family name ua_truncate = record {
    ts = ts;
    host = normalize_host f.host;
    server_name = f.server_name;
    agent_hostname = agent_hostname;
    remote_addr = dash_to_empty f.remote_addr;
    method = f.method;
    uri = f.uri;
    referer = dash_to_empty f.referer;
    status = parse_status f.status;
    body_bytes_sent = parse_uint32 f.body_bytes_sent;
    request_time_us = parse_seconds_to_micros f.request_time;
    upstream_response_time_us =
        parse_seconds_to_micros (first_upstream_time f.upstream_response_time);
    upstream_cache_status = dash_to_empty f.upstream_cache_status;
    user_agent = truncate f.user_agent ua_truncate;
    bot_family = family;
    bot_name = name;
    request_id = sanitize_request_id f.request_id;
    upstream_status = parse_status (last_upstream_status f.upstream_status);
    ua_matched = false;
    ua_list_version = [];
    reached_upstream = false;
    proxy_host = [];
    platform = [];
    app_version = [];
    visitor_id = [];
  }

  unfoldable pub new_event : ℕ → Text → RawFields → List Text → ℕ → Option Event
  unfolding match_ua
  new_event ts agent_hostname f extra ua_truncate =
      let (family, name) = match_ua f.user_agent extra in
      if is_empty family
      then none
      else some (build_event ts agent_hostname f family name ua_truncate)

-- Where the fields stand among the extracted ones.
pub record Indices : Type 0 where
  pub ua : Option ℕ
  pub host : Option ℕ
  pub server_name : Option ℕ
  pub remote_addr : Option ℕ
  pub referer : Option ℕ

pub record BotObserver : Type 0 where
  pub hostname : Text
  pub ua_truncate : ℕ
  pub uri_truncate : ℕ
  pub extra_patterns : List Text
  pub idx : Indices

-- EventSink, as what was given to it, the latest first.
pub record Sink : Type 0 where
  pub events : List Event
  pub matches : List Text

abbrev pub uri_of : ParsedLine → Text
uri_of p = if is_empty p.raw_uri then p.uri else p.raw_uri

abbrev pub time_or : ℕ → Option ℕ → ℕ
time_or now none = now
time_or now (some t) = t

-- The fields that both observers take from a line.
unfoldable pub raw_fields : Indices → ℕ → ParsedLine → RawFields
unfolding field truncate
raw_fields idx uri_truncate p = record {
  status = p.status;
  uri = truncate (uri_of p) uri_truncate;
  body_bytes_sent = p.body_bytes_sent;
  request_time = p.request_time;
  upstream_response_time = p.upstream_response_time;
  upstream_cache_status = p.upstream_cache_status;
  user_agent = field p.extras idx.ua;
  host = field p.extras idx.host;
  server_name = field p.extras idx.server_name;
  remote_addr = field p.extras idx.remote_addr;
  referer = truncate (field p.extras idx.referer) uri_truncate;
  method = p.method;
  request_id = p.request_id;
  upstream_status = p.upstream_status;
}

-- OnLogLine
unfoldable pub observe_bot :
    {F : Type 0} → Seconds F → Clock → BotObserver → ParsedLine → Sink → Sink
unfolding match_ua field
observe_bot secs clock o p sink =
    let ua = field p.extras o.idx.ua in
    let (family, name) = match_ua ua o.extra_patterns in
    if is_empty ua || is_empty family then sink else record {
      events =
          build_event secs clock (time_or clock.now (clock.timestamp p.time)) o.hostname
            (raw_fields o.idx o.uri_truncate p) family name o.ua_truncate
          ∷ sink.events;
      matches = family ∷ sink.matches;
    }
