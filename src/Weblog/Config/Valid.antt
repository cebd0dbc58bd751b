-- ===== src/Weblog/Config/Valid.antt =====
-- What Validate accepts, and what its errors say.
use topsrv.Base.{
  ◌&&◌, not, none, [], ◌⊎◌, true, ◌≢◌, false, ◌≡◌, same, some, ◌<◌, List, is_abs, Option, is_empty,
  ℤ, Text, All, any,
}
use topsrv.Botlog.Config.{
  Parsers, PushConfig, ConfigError, Checked, refused, passed, no_token, shared_token, no_log_paths,
  relative_path, glob_path, no_endpoint, bad_push_endpoint, bad_endpoint, bad_interval,
  default_batch_interval,
}
use topsrv.Weblog.Config.{WebConfig, is_glob, ingest_path}

-- Absolute, and no pattern.
abbrev pub GoodPath : Text → Type 0
GoodPath p = (is_abs p ≡ true) × (is_glob p ≡ false)

module _ {U : Type 0} (parsers : Parsers U) (push : PushConfig) (other : Text) (c : WebConfig) where
  -- What each error says of the configuration.
  abbrev pub Blames : ConfigError → Type 0
  Blames no_token = is_empty c.token ≡ true
  Blames shared_token = (is_empty other ≡ false) × (c.token ≡ other)
  Blames no_log_paths = c.log_paths ≡ []
  Blames (relative_path p) = (any (same p) c.log_paths ≡ true) × (is_abs p ≡ false)
  Blames (glob_path p) = (any (same p) c.log_paths ≡ true) × (is_glob p ≡ true)
  Blames no_endpoint = (is_empty c.endpoint ≡ true) × (is_empty push.endpoint ≡ true)
  Blames bad_push_endpoint = (is_empty c.endpoint ≡ true) × (parsers.parse_url push.endpoint ≡ none)
  Blames bad_endpoint = parsers.parse_url c.endpoint ≡ none
  Blames bad_interval = parsers.parse_duration c.batch_interval ≡ none

  -- Its own endpoint, or the one of the metrics with the path of the stream.
  abbrev pub EndpointFrom : Text → Type 0
  EndpointFrom e =
      ((is_empty c.endpoint ≡ false) × (e ≡ c.endpoint) × (parsers.parse_url e ≢ none))
      ⊎ ((is_empty c.endpoint ≡ true)
          × ((u : U) × (parsers.parse_url push.endpoint ≡ some u)
              × (e ≡ parsers.show_url (parsers.with_path ingest_path u))))

  abbrev pub IntervalFrom : Text × ℤ → Type 0
  IntervalFrom (text, d) =
      ((is_empty c.batch_interval ≡ true) × (d ≡ default_batch_interval))
      ⊎ ((text ≡ c.batch_interval) × (parsers.parse_duration text ≡ some d))

  abbrev pub Sound : WebConfig → Type 0
  Sound c' =
      ((is_empty c'.token ≡ false) × (not (is_empty other) && same c'.token other ≡ false))
      × ((c'.log_paths ≢ []) × All GoodPath c'.log_paths)
      × EndpointFrom c'.endpoint
      × IntervalFrom (c'.batch_interval, c'.parsed_batch_interval)
      × ((0 < c'.batch_size) × (0 < c'.max_spool_mb) × (0 < c'.ua_truncate) × (0 < c'.uri_truncate))
      × (c'.log_paths ≡ c.log_paths)
      × (c'.token ≡ c.token)

  abbrev pub Outcome : Checked WebConfig → Type 0
  Outcome (refused e) = Blames e
  Outcome (passed c') = Sound c'

  abbrev PathsOutcome : Option ConfigError → Type 0
  PathsOutcome (some e) = Blames e
  PathsOutcome none = (c.log_paths ≢ []) × All GoodPath c.log_paths

  abbrev EndpointOutcome : Checked Text → Type 0
  EndpointOutcome (refused e) = Blames e
  EndpointOutcome (passed e) = EndpointFrom e

  abbrev IntervalOutcome : Checked (Text × ℤ) → Type 0
  IntervalOutcome (refused e) = Blames e
  IntervalOutcome (passed p) = IntervalFrom p

  -- The paths behind the ones that were looked at.
  abbrev TailOutcome : List Text → Option ConfigError → Type 0
  TailOutcome ps (some e) = Blames e
  TailOutcome ps none = All GoodPath ps
