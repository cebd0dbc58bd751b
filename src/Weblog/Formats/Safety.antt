-- ===== src/Weblog/Formats/Safety.antt =====
-- What CheckFormats promises of the paths that it lets through.
use topsrv.Base.{
  All, ℕ, ◌+◌, ◌≡◌, ◌⊎◌, true, false, not, ◌&&◌, ◌||◌, List, Text, codes, keep, length,
}
use topsrv.Botlog.Aliases.{FieldAliases}
use topsrv.Weblog.Formats.{
  Filters, Checked, no_texts, no_timestamp, no_method, no_upstream, no_request_id,
  no_upstream_status, upstream_filter_off, upstream_filter_off, no_upstream_status, no_request_id,
  no_upstream, no_method, no_timestamp, Config, LogConfig, Warning, unsafe_vars, remote_candidates,
  uri_candidates, proxy_host_field, vars_of, has, any_of, format_of,
}

abbrev fatal_count : List Warning → ℕ
fatal_count ws = length (keep (λ w. w.fatal) ws)

-- A path that may be tailed: it is one that discovery found, and its format carries no body, cookie
-- or credential, but a client address, a status and a URI.
pub record Safe (log : LogConfig) (aliases : FieldAliases) (path : Text) : Type 0 where
  pub known : has log.log_paths path ≡ true
  pub no_secret : any_of (vars_of (format_of log path)) unsafe_vars ≡ false
  pub client :
      (has (vars_of (format_of log path)) aliases.remote_addr
        || any_of (vars_of (format_of log path)) remote_candidates)
      ≡ true
  pub complete :
      (has (vars_of (format_of log path)) (codes "status")
        && any_of (vars_of (format_of log path)) uri_candidates)
      ≡ true

-- Every path tailed logs the field.
abbrev pub AllHave : LogConfig → Text → List Text → Type 0
AllHave log name paths = All (λ path. has (vars_of (format_of log path)) name ≡ true) paths

record Inv (log : LogConfig) (aliases : FieldAliases) (n : ℕ) (c : Checked) : Type 0 where
  safe : All (λ path. Safe log aliases path) c.tail
  counted : length c.tail + fatal_count c.warnings ≡ n
  upstream : (c.have_upstream ≡ false) ⊎ AllHave log (codes "upstream_response_time") c.tail
  proxy_host : (c.have_proxy_host ≡ false) ⊎ AllHave log proxy_host_field c.tail

module _ (cfg : Config) (log : LogConfig) (aliases : FieldAliases) where
  -- What CheckFormats returns.
  pub record Outcome (r : List Text × Filters × List Warning) : Type 0 where
    pub safe : All (λ path. Safe log aliases path) r.0
    pub counted : length r.0 + fatal_count r.2 ≡ length cfg.log_paths
    pub require_upstream :
        (r.1.require_upstream ≡ false)
        ⊎ ((cfg.require_upstream ≡ true) × AllHave log (codes "upstream_response_time") r.0)
    pub upstreams :
        (r.1.upstreams ≡ false)
        ⊎ ((not (no_texts cfg.upstreams) ≡ true) × AllHave log proxy_host_field r.0)
