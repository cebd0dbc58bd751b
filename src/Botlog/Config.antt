-- ===== src/Botlog/Config.antt =====
-- The configuration of the bot stream, internal/topsrv/botlog/config.go: Validate with its defaults.
-- The steps that the web-log stream shares take its path and its directory as arguments.
use topsrv.Base.{
  Bool, Text, ℕ, ℤ, pos, List, Option, none, some, is_empty, codes, join, if◌then◌else◌, ◌*◌, ◌^◌,
  not, ◌&&◌, eqb,
}
use topsrv.Botlog.Aliases.{FieldAliases}

-- url.Parse, the replacement of the path without a query, and String; time.ParseDuration.
pub record Parsers (U : Type 0) : Type 0 where
  pub parse_url : Text → Option U
  pub with_path : Text → U → U
  pub show_url : U → Text
  pub parse_duration : Text → Option ℤ

-- PushConfig, what Validate reads of it.
pub record PushConfig : Type 0 where
  pub endpoint : Text
  pub spool_dir : Text

pub data ConfigError : Type 0 where
  no_token : ConfigError
  shared_token : ConfigError
  no_log_paths : ConfigError
  relative_path : Text → ConfigError
  glob_path : Text → ConfigError
  no_endpoint : ConfigError
  bad_push_endpoint : ConfigError
  bad_endpoint : ConfigError
  bad_interval : ConfigError

-- A value, or the error that is reported.
pub data Checked {ℓ} (A : Type ℓ) : Type ℓ where
  refused : ConfigError → Checked A
  passed : A → Checked A

abbrev pub default_batch_size : ℕ
default_batch_size = 5000

-- 30 seconds, in nanoseconds
abbrev pub default_batch_interval : ℤ
default_batch_interval = pos (30 * 10 ^ 9)

abbrev pub default_max_spool_mb : ℕ
default_max_spool_mb = 200

abbrev pub default_ua_truncate : ℕ
default_ua_truncate = 1024

abbrev pub default_uri_truncate : ℕ
default_uri_truncate = 2048

abbrev pub ingest_path : Text
ingest_path = codes "/v1/bot-logs"

abbrev pub spool_subdir : Text
spool_subdir = codes "botlog"

pub record BotConfig : Type 0 where
  pub enabled : Bool
  pub endpoint : Text
  pub token : Text
  pub batch_size : ℕ
  pub batch_interval : Text
  pub spool_dir : Text
  pub max_spool_mb : ℕ
  pub ua_truncate : ℕ
  pub uri_truncate : ℕ
  pub extra_ua_patterns : List Text
  pub field_aliases : FieldAliases
  pub parsed_batch_interval : ℤ

abbrev pub or_default : ℕ → ℕ → ℕ
or_default d n = if eqb n 0 then d else n

unfoldable pub spool_in : Text → Text → Text → Text
unfolding join
spool_in subdir push own =
    let dir : Text = if is_empty own && not (is_empty push) then push else own in
    if is_empty dir then dir else join dir subdir

module _ {U : Type 0} (parsers : Parsers U) where
  abbrev pub derived : Text → Option U → Checked Text
  derived path none = refused bad_push_endpoint
  derived path (some u) = passed (parsers.show_url (parsers.with_path path u))

  abbrev pub given : Text → Option U → Checked Text
  given own none = refused bad_endpoint
  given own (some u) = passed own

  unfoldable pub endpoint_of : Text → Text → Text → Checked Text
  endpoint_of path push own =
      if is_empty own
      then if is_empty push then refused no_endpoint else derived path (parsers.parse_url push)
      else given own (parsers.parse_url own)

  abbrev pub timed : Text → Option ℤ → Checked (Text × ℤ)
  timed own none = refused bad_interval
  timed own (some d) = passed (own, d)

  unfoldable pub batch_interval_of : Text → Checked (Text × ℤ)
  batch_interval_of own =
      if is_empty own
      then passed (codes "30s", default_batch_interval)
      else timed own (parsers.parse_duration own)

  unfoldable pub fill_bot :
      PushConfig → BotConfig → Checked Text → Checked (Text × ℤ) → Checked BotConfig
  unfolding spool_in
  fill_bot push c (refused e) interval = refused e
  fill_bot push c (passed endpoint) (refused e) = refused e
  fill_bot push c (passed endpoint) (passed (text, d)) = passed (record c {
    endpoint = endpoint;
    batch_size = or_default default_batch_size c.batch_size;
    batch_interval = text;
    spool_dir = spool_in spool_subdir push.spool_dir c.spool_dir;
    max_spool_mb = or_default default_max_spool_mb c.max_spool_mb;
    ua_truncate = or_default default_ua_truncate c.ua_truncate;
    uri_truncate = or_default default_uri_truncate c.uri_truncate;
    parsed_batch_interval = d;
  })

  unfoldable pub validate_bot : PushConfig → BotConfig → Checked BotConfig
  unfolding endpoint_of batch_interval_of fill_bot
  validate_bot push c =
      if is_empty c.token
      then refused no_token
      else fill_bot push c (endpoint_of ingest_path push.endpoint c.endpoint)
          (batch_interval_of c.batch_interval)
