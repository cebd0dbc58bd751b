-- ===== src/Botlog/Event/Bounded.antt =====
-- Every event fits the columns of its receiver.
use topsrv.Base.{
  ◌∷◌, ◌⊎◌, false, true, ◌≤◌, ◌≡◌, ◌||◌, length, codes, ◌^◌, is_empty, ◌<◌, same, Text, ℕ,
}
use topsrv.Nginx.Line.{ParsedLine}
use topsrv.Shipper.Event.{Event}
use topsrv.Botlog.Values.{field}
use topsrv.Botlog.Match.{match_ua}
use topsrv.Botlog.Event.{Seconds, Clock, BotObserver, Sink, time_or}

abbrev pub NoDash : Text → Type 0
NoDash s = same s (codes "-") ≡ false

-- The numbers fit 16 and 32 bits, the client's texts are within the limits, and no dash stands for
-- an absent value.
abbrev pub Fits : ℕ → ℕ → Event → Type 0
Fits ua_limit uri_limit e =
    (e.status < 2 ^ 16)
    × (e.upstream_status < 2 ^ 16)
    × (e.body_bytes_sent < 2 ^ 32)
    × (e.request_time_us < 2 ^ 32)
    × (e.upstream_response_time_us < 2 ^ 32)
    × (length e.user_agent ≤ ua_limit)
    × (length e.uri ≤ uri_limit)
    × (length e.referer ≤ uri_limit)
    × (length e.request_id ≤ 64)
    × NoDash e.remote_addr
    × NoDash e.referer
    × NoDash e.upstream_cache_status
    × NoDash e.request_id

module _ {F : Type 0} (secs : Seconds F) (clock : Clock) where
  -- What the bot stream does with a line: nothing where it has no user agent or that is no bot's;
  -- otherwise it counts the family and hands on one event of that family, with the time of the line
  -- where it has one, which fits.
  abbrev pub Observed : BotObserver → ParsedLine → Sink → Sink → Type 0
  Observed o p sink sink' =
      let ua = field p.extras o.idx.ua in
      let m = match_ua ua o.extra_patterns in
      ((is_empty ua || is_empty m.0) ≡ true) × (sink' ≡ sink)
      ⊎ (((is_empty ua || is_empty m.0) ≡ false)
          × (sink'.matches ≡ m.0 ∷ sink.matches)
          × ((e : Event) × (sink'.events ≡ e ∷ sink.events)
              × (e.bot_family ≡ m.0)
              × (e.ts ≡ time_or clock.now (clock.timestamp p.time))
              × Fits o.ua_truncate o.uri_truncate e))
