-- ===== src/Weblog/Observe/Agree.antt =====
-- The two streams side by side: what the bot stream ships of a line is what the web-log stream ships.
use topsrv.Base.{◌+◌, ◌⊎◌, ◌∷◌, true, Text, false, ◌≡◌, []}
use topsrv.Nginx.Line.{ParsedLine}
use topsrv.Shipper.Event.{Event}
use topsrv.Botlog.Values.{field}
use topsrv.Botlog.Match.{match_ua}
use topsrv.Botlog.Event.{Seconds, Clock, BotObserver, Sink}
use topsrv.Weblog.Lines.{Filtered, wanted, total}
use topsrv.Weblog.Observe.{WebObserver, line_of, web_event}

-- The bot observer with the settings of a web-log observer and no patterns of its own.
abbrev pub bot_of : WebObserver → BotObserver
bot_of o = record {
  hostname = o.hostname;
  ua_truncate = o.ua_truncate;
  uri_truncate = o.uri_truncate;
  extra_patterns = [];
  idx = o.idx;
}

abbrev pub without_web : Event → Event
without_web e = record e {
  ua_matched = false;
  ua_list_version = [];
  reached_upstream = false;
  proxy_host = [];
  platform = [];
  app_version = [];
  visitor_id = [];
}

module _ {F : Type 0} (secs : Seconds F) (clock : Clock) where
  family_of : WebObserver → ParsedLine → Text × Text
  family_of o p = match_ua (field p.extras o.idx.ua) []

  -- What the web-log stream does with a line.
  abbrev pub Shipped : WebObserver → ParsedLine → Text → Filtered × Sink → Filtered × Sink → Type 0
  Shipped o p path (c, sink) (c', sink') =
      ((wanted o.lines (line_of p) path ≡ true)
        × (c' ≡ c)
        × (sink'.events ≡ web_event secs clock o p ∷ sink.events))
      ⊎ ((wanted o.lines (line_of p) path ≡ false) × (total c' ≡ total c + 1) × (sink' ≡ sink))
