-- ===== src/Weblog/Config.antt =====
-- The configuration of the web-log stream, internal/topsrv/weblog/config.go: Validate and
-- validateLogPaths.
pub mod Valid
pub mod Spools
mod Tests
use topsrv.Base.{
  some, none, Option, Bool, Text, ℕ, ℤ, List, [], ◌∷◌, is_empty, codes, same, is_abs, if◌then◌else◌,
  not, ◌&&◌, lacks,
}
use topsrv.Botlog.Config.{
  ConfigError, Parsers, PushConfig, Checked, refused, passed, no_token, shared_token, no_log_paths,
  relative_path, glob_path, or_default, spool_in, endpoint_of, batch_interval_of,
  default_batch_size, default_max_spool_mb, default_ua_truncate, default_uri_truncate,
}

abbrev pub ingest_path : Text
ingest_path = codes "/v1/web-logs"

abbrev pub spool_subdir : Text
spool_subdir = codes "weblog"

pub record WebConfig : Type 0 where
  pub enabled : Bool
  pub token : Text
  pub endpoint : Text
  pub log_paths : List Text
  pub require_upstream : Bool
  pub upstreams : List Text
  pub exclude_path_prefixes : List Text
  pub batch_size : ℕ
  pub batch_interval : Text
  pub spool_dir : Text
  pub max_spool_mb : ℕ
  pub ua_truncate : ℕ
  pub uri_truncate : ℕ
  pub parsed_batch_interval : ℤ

-- strings.ContainsAny(p, "*?[")
abbrev pub is_glob : Text → Bool
is_glob p = not (lacks b'*' p && lacks b'?' p && lacks b'[' p)

abbrev pub check_log_paths : List Text → Option ConfigError
check_log_paths [] = none
check_log_paths (p ∷ ps) =
    let rest = check_log_paths ps in
    if not (is_abs p)
    then some (relative_path p)
    else if is_glob p
    then some (glob_path p)
    else rest

abbrev pub check_named : List Text → Option ConfigError
check_named [] = some no_log_paths
check_named (p ∷ ps) = check_log_paths (p ∷ ps)

unfoldable pub validate_log_paths : WebConfig → Option ConfigError
unfolding is_abs
validate_log_paths c = check_named c.log_paths

module _ {U : Type 0} (parsers : Parsers U) where
  unfoldable pub fill_web :
      PushConfig
      → WebConfig
      → Option ConfigError
      → Checked Text
      → Checked (Text × ℤ)
      → Checked WebConfig
  unfolding spool_in
  fill_web push c (some e) endpoint interval = refused e
  fill_web push c none (refused e) interval = refused e
  fill_web push c none (passed endpoint) (refused e) = refused e
  fill_web push c none (passed endpoint) (passed (text, d)) = passed (record c {
    endpoint = endpoint;
    batch_size = or_default default_batch_size c.batch_size;
    batch_interval = text;
    spool_dir = spool_in spool_subdir push.spool_dir c.spool_dir;
    max_spool_mb = or_default default_max_spool_mb c.max_spool_mb;
    ua_truncate = or_default default_ua_truncate c.ua_truncate;
    uri_truncate = or_default default_uri_truncate c.uri_truncate;
    parsed_batch_interval = d;
  })

  unfoldable pub validate_web : PushConfig → Text → WebConfig → Checked WebConfig
  unfolding endpoint_of batch_interval_of fill_web validate_log_paths same
  validate_web push bot_token c =
      if is_empty c.token
      then refused no_token
      else if not (is_empty bot_token) && same c.token bot_token
      then refused shared_token
      else fill_web push c (validate_log_paths c)
          (endpoint_of parsers ingest_path push.endpoint c.endpoint)
          (batch_interval_of parsers c.batch_interval)
