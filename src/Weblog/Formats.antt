-- ===== src/Weblog/Formats.antt =====
-- Which configured logs may be shipped: internal/topsrv/weblog/format.go.
pub mod Safety
pub mod Vars
use topsrv.Base.{
  ℕ, zero, suc, ◌≤◌, Bool, true, false, not, ◌&&◌, ◌||◌, List, [], ◌∷◌, ◌++◌, Option, none, some,
  Text, codes, same, is_empty, any, leb, eqb, if◌then◌else◌,
}
use topsrv.Botlog.Aliases.{FieldAliases}

-- The kinds of warnings; the text of a detail is not kept.
pub data Kind : Type 0 where
  unknown_path unsafe_format no_client_ip incomplete_format no_timestamp no_method no_upstream :
      Kind
  no_request_id no_upstream_status upstream_filter_off : Kind

pub record Warning : Type 0 where
  pub kind : Kind
  pub path : Text
  pub fatal : Bool

-- What CheckFormats reads of the config.
pub record Config : Type 0 where
  pub log_paths : List Text
  pub require_upstream : Bool
  pub upstreams : List Text

-- What it reads of nginx.LogConfig; a missing format is the empty one.
pub record LogConfig : Type 0 where
  pub log_paths : List Text
  pub log_format : Text
  pub log_formats : List (Text × Text)

pub record Filters : Type 0 where
  pub require_upstream : Bool
  pub upstreams : Bool

abbrev pub unsafe_vars : List Text
unsafe_vars = codes "request_body" ∷ codes "http_cookie" ∷ codes "http_authorization" ∷ []

abbrev pub remote_candidates : List Text
remote_candidates =
    codes "remote_addr"
    ∷ codes "realip_remote_addr"
    ∷ codes "http_x_real_ip"
    ∷ codes "http_x_forwarded_for"
    ∷ []

abbrev pub uri_candidates : List Text
uri_candidates = codes "request_uri" ∷ codes "request" ∷ codes "uri" ∷ []

abbrev pub time_candidates : List Text
time_candidates = codes "msec" ∷ codes "time_iso8601" ∷ codes "time_local" ∷ []

abbrev pub method_candidates : List Text
method_candidates = codes "request_method" ∷ codes "request" ∷ []

abbrev pub request_id_candidates : List Text
request_id_candidates = codes "request_id" ∷ codes "http_x_request_id" ∷ []

abbrev pub proxy_host_field : Text
proxy_host_field = codes "proxy_host"

-- [a-z_0-9]
abbrev pub is_word : ℕ → Bool
is_word c = (leb b'a' c && leb c b'z') || eqb c b'_' || (leb b'0' c && leb c b'9')

abbrev pub add_var : Text → List Text → List Text
add_var word vars = if is_empty word then vars else word ∷ vars

-- varRe.FindAllStringSubmatch: the longest run of word characters behind each dollar sign. `word` is
-- the run read so far, `inside` says whether one is being read.
unfoldable pub scan_vars : Text → Bool → Text → List Text
scan_vars [] inside word = add_var word []
scan_vars (c ∷ s) inside word =
    let more = scan_vars s true (word ++ c ∷ []) in
    let fresh = scan_vars s true [] in
    let out = scan_vars s false [] in
    if inside && is_word c then more else add_var word (if eqb c b'$' then fresh else out)

unfoldable pub vars_of : Text → List Text
vars_of format = scan_vars format false []

-- vars[name]
unfoldable pub has : List Text → Text → Bool
has vars name = any (same name) vars

unfoldable pub any_of : List Text → List Text → Bool
unfolding has
any_of vars names = any (has vars) names

-- log.LogFormats[path]
unfoldable pub format_at : List (Text × Text) → Text → Text
format_at [] path = []
format_at ((p, f) ∷ formats) path =
    let rest = format_at formats path in if same p path then f else rest

unfoldable pub format_of : LogConfig → Text → Text
unfolding format_at
format_of log path =
    let f = format_at log.log_formats path in if is_empty f then log.log_format else f

abbrev pub no_texts : List Text → Bool
no_texts [] = true
no_texts (x ∷ xs) = false

unfoldable pub warn : Bool → Kind → Text → List Warning
warn missing k path = if missing then record { kind = k; path = path; fatal = false } ∷ [] else []

-- The advisory half of checkPath.
unfoldable pub advise : Config → Text → List Text → List Warning
unfolding any_of
advise cfg path vars =
    warn (not (any_of vars time_candidates)) no_timestamp path
    ++ warn (not (any_of vars method_candidates)) no_method path
    ++ warn (not (has vars (codes "upstream_response_time"))) no_upstream path
    ++ warn (not (any_of vars request_id_candidates)) no_request_id path
    ++ warn (not (has vars (codes "upstream_status"))) no_upstream_status path
    ++ warn (not (no_texts cfg.upstreams) && not (has vars proxy_host_field)) upstream_filter_off
        path

abbrev pub refuse : Kind → Text → List Warning × Bool
refuse k path = (record { kind = k; path = path; fatal = true } ∷ [], true)

unfoldable pub check_path : Config → Text → List Text → FieldAliases → List Warning × Bool
unfolding advise
check_path cfg path vars aliases =
    if any_of vars unsafe_vars
    then refuse unsafe_format path
    else if not (has vars aliases.remote_addr) && not (any_of vars remote_candidates)
    then refuse no_client_ip path
    else if not (has vars (codes "status")) || not (any_of vars uri_candidates)
    then refuse incomplete_format path
    else (advise cfg path vars, false)

-- The result of the loop: the paths to tail, whether all have the two fields, and the warnings.
pub record Checked : Type 0 where
  pub tail : List Text
  pub have_upstream : Bool
  pub have_proxy_host : Bool
  pub warnings : List Warning

abbrev pub unchecked : Checked
unchecked = record { tail = []; have_upstream = true; have_proxy_host = true; warnings = [] }

unfoldable pub check_paths : Config → LogConfig → FieldAliases → List Text → Checked → Checked
unfolding format_of vars_of check_path
check_paths cfg log aliases [] acc = acc
check_paths cfg log aliases (path ∷ paths) acc =
    let vars = vars_of (format_of log path) in
    let (w, fatal) = check_path cfg path vars aliases in
    let unknown = check_paths cfg log aliases paths (record acc {
      warnings = acc.warnings ++ record { kind = unknown_path; path = path; fatal = true } ∷ [];
    }) in
    let refused = check_paths cfg log aliases paths (record acc { warnings = acc.warnings ++ w }) in
    let tailed = check_paths cfg log aliases paths (record {
      tail = acc.tail ++ path ∷ [];
      have_upstream = acc.have_upstream && has vars (codes "upstream_response_time");
      have_proxy_host = acc.have_proxy_host && has vars proxy_host_field;
      warnings = acc.warnings ++ w;
    }) in
    if not (has log.log_paths path) then unknown else if fatal then refused else tailed

unfoldable pub check_formats :
    Config → LogConfig → FieldAliases → List Text × Filters × List Warning
unfolding check_paths
check_formats cfg log aliases =
    let c = check_paths cfg log aliases cfg.log_paths unchecked in
    (
      c.tail,
      (if no_texts c.tail then record { require_upstream = false; upstreams = false } else record {
        require_upstream = cfg.require_upstream && c.have_upstream;
        upstreams = not (no_texts cfg.upstreams) && c.have_proxy_host;
      }),
      c.warnings,
    )
