-- ===== src/Weblog/Observe.antt =====
-- OnLogLine of the web-log stream, internal/topsrv/weblog/observer.go: the filters, then an event for
-- every line that is left, with the class of its user agent as a value.
pub mod Agree
pub mod Tests
use topsrv.Base.{◌∷◌, is_empty, not, if◌then◌else◌, codes, Text, [], ℕ}
use topsrv.Nginx.Line.{ParsedLine}
use topsrv.Shipper.Event.{Event}
use topsrv.Botlog.Values.{field, dash_to_empty}
use topsrv.Botlog.Match.{match_ua}
use topsrv.Botlog.Event.{Seconds, Clock, Indices, Sink, raw_fields, build_event, time_or}
use topsrv.Weblog.Lines as Lines
use topsrv.Weblog.Lines.{Line, Filtered, filter_line, reached_upstream}

abbrev pub ua_list_version : Text
ua_list_version = codes "2026-09-08"

pub record WebObserver : Type 0 where
  pub hostname : Text
  pub ua_truncate : ℕ
  pub uri_truncate : ℕ
  pub lines : Lines.Observer
  pub idx : Indices

abbrev pub line_of : ParsedLine → Line
line_of p = record {
  upstream_response_time = p.upstream_response_time;
  raw_uri = p.raw_uri;
  extras = p.extras;
}

-- What the bot stream has no field for.
unfoldable pub with_web : WebObserver → ParsedLine → Text → Event → Event
unfolding dash_to_empty field
with_web o p family e = record e {
  ua_matched = not (is_empty family);
  ua_list_version = ua_list_version;
  reached_upstream = reached_upstream p.upstream_response_time;
  proxy_host = dash_to_empty (field p.extras o.lines.idx_proxy_host);
  platform = p.platform;
  app_version = p.app_version;
  visitor_id = p.visitor_id;
}

module _ {F : Type 0} (secs : Seconds F) (clock : Clock) where
  unfoldable pub web_event : WebObserver → ParsedLine → Event
  unfolding match_ua with_web build_event raw_fields
  web_event o p =
      let (family, name) = match_ua (field p.extras o.idx.ua) [] in
      with_web o p family (
        build_event secs clock (time_or clock.now (clock.timestamp p.time)) o.hostname
          (raw_fields o.idx o.uri_truncate p) family name o.ua_truncate)

  abbrev pub count_match : Text → Sink → Sink
  count_match family sink =
      if is_empty family then sink else record sink { matches = family ∷ sink.matches }

  unfoldable pub observe_web : WebObserver → ParsedLine → Text → Filtered × Sink → Filtered × Sink
  unfolding web_event filter_line match_ua
  observe_web o p path (c, sink) =
      let (c', passed) = filter_line o.lines (line_of p) path c in
      let family = (match_ua (field p.extras o.idx.ua) []).0 in
      let counted : Sink = count_match family sink in
      if passed
      then (c', record counted { events = web_event o p ∷ counted.events })
      else (c', sink)
