-- ===== src/Nginx/Line.antt =====
-- A parsed log line, internal/topsrv/nginx/log.go: fillLine and the typed JSON entry.
use topsrv.Base.{
  length, ltb, some, if◌then◌else◌, none, [], take, map, Fields, ◌∷◌, codes, Option, lookup, List,
  Text, ℕ,
}
use topsrv.Nginx.Fields.{resolve_method, resolve_time, resolve_client_field}
use topsrv.Nginx.Paths.{resolve_uri}

-- Extras holds the first NExtras values; further slots are empty.
pub record ParsedLine : Type 0 where
  pub status : Text
  pub uri : Text
  pub raw_uri : Text
  pub body_bytes_sent : Text
  pub request_time : Text
  pub upstream_response_time : Text
  pub upstream_cache_status : Text
  pub method : Text
  pub time : Text
  pub platform : Text
  pub app_version : Text
  pub visitor_id : Text
  pub request_id : Text
  pub upstream_status : Text
  pub extras : List Text

abbrev pub max_extras : ℕ
max_extras = 8

abbrev platform_candidates : List Text
platform_candidates = codes "http_platform" ∷ []

abbrev app_version_candidates : List Text
app_version_candidates = codes "http_version" ∷ []

abbrev visitor_id_candidates : List Text
visitor_id_candidates = codes "uid_got" ∷ codes "uid_set" ∷ []

abbrev request_id_candidates : List Text
request_id_candidates = codes "request_id" ∷ codes "http_x_request_id" ∷ []

-- What the collector knows of the fields.
pub record Names : Type 0 where
  pub extract_fields : List Text
  pub method_field : Text
  pub time_field : Text

unfoldable pub fill_line : Names → (Text → Text) → ParsedLine
unfolding resolve_uri resolve_method resolve_time resolve_client_field
fill_line c get = record {
  status = get (codes "status");
  uri = (resolve_uri get).0;
  raw_uri = (resolve_uri get).1;
  body_bytes_sent = get (codes "body_bytes_sent");
  request_time = get (codes "request_time");
  upstream_response_time = get (codes "upstream_response_time");
  upstream_cache_status = get (codes "upstream_cache_status");
  method = resolve_method c.method_field get;
  time = resolve_time c.time_field get;
  platform = resolve_client_field get platform_candidates;
  app_version = resolve_client_field get app_version_candidates;
  visitor_id = resolve_client_field get visitor_id_candidates;
  request_id = resolve_client_field get request_id_candidates;
  upstream_status = get (codes "upstream_status");
  extras = map get (take max_extras c.extract_fields);
}

pub record JsonEntry : Type 0 where
  pub status : Text
  pub body_bytes_sent : Text
  pub request_time : Text
  pub upstream_response_time : Text
  pub msec : Text
  pub upstream_cache_status : Text
  pub request_uri : Text
  pub request : Text
  pub uri : Text
  pub args : Text
  pub query_string : Text
  pub request_method : Text
  pub time_iso8601 : Text
  pub time_local : Text
  pub http_platform : Text
  pub http_version : Text
  pub uid_got : Text
  pub uid_set : Text
  pub request_id : Text
  pub http_x_request_id : Text
  pub upstream_status : Text

-- The switch of field, in its order.
abbrev pub json_fields : JsonEntry → List (Text × Text)
json_fields e =
    (codes "status", e.status)
    ∷ (codes "body_bytes_sent", e.body_bytes_sent)
    ∷ (codes "request_time", e.request_time)
    ∷ (codes "upstream_response_time", e.upstream_response_time)
    ∷ (codes "msec", e.msec)
    ∷ (codes "upstream_cache_status", e.upstream_cache_status)
    ∷ (codes "request_uri", e.request_uri)
    ∷ (codes "request", e.request)
    ∷ (codes "uri", e.uri)
    ∷ (codes "args", e.args)
    ∷ (codes "query_string", e.query_string)
    ∷ (codes "request_method", e.request_method)
    ∷ (codes "time_iso8601", e.time_iso8601)
    ∷ (codes "time_local", e.time_local)
    ∷ (codes "http_platform", e.http_platform)
    ∷ (codes "http_version", e.http_version)
    ∷ (codes "request_id", e.request_id)
    ∷ (codes "http_x_request_id", e.http_x_request_id)
    ∷ (codes "upstream_status", e.upstream_status)
    ∷ (codes "uid_got", e.uid_got)
    ∷ (codes "uid_set", e.uid_set)
    ∷ []

unfoldable pub json_field : JsonEntry → Text → Text
unfolding lookup
json_field e name = lookup name (json_fields e)

-- `decode_map` and `decode_entry` are json.Unmarshal into the map and into the entry, with their
-- unquoting; a line that they refuse is dropped.
unfoldable pub parse_json_line :
    Names → (Text → Option Fields) → (Text → Option JsonEntry) → Text → Option ParsedLine
unfolding fill_line json_field
parse_json_line c decode_map decode_entry line =
    if ltb 0 (length c.extract_fields)
    then elim (decode_map line) [
      | none ↦ none
      | some m ↦ some (fill_line c (λ name. lookup name m))
    ]
    else elim (decode_entry line) [ none ↦ none | some e ↦ some (fill_line c (json_field e)) ]

-- `parse` is the parser of gonx.
unfoldable pub parse_line_with : Names → (Text → Option Fields) → Text → Option ParsedLine
unfolding fill_line
parse_line_with c parse line = elim (parse line) [
  | none ↦ none
  | some m ↦ some (fill_line c (λ name. lookup name m))
]
