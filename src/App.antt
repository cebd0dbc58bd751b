-- ===== src/App.antt =====
-- The wiring of the log streams, internal/app/app.go: which fields of a line are read, and what
-- the operator is warned of.
pub mod Fields
pub mod Aliases
mod Tests
use topsrv.Base.{
  Text, Bool, List, [], ◌∷◌, ◌++◌, codes, same, any, keep, not, ◌&&◌, ◌||◌, is_empty, if◌then◌else◌,
  take, drop, length, leb, ℕ,
}
use topsrv.Nginx.Line.{max_extras, Names}
use topsrv.Botlog.Aliases.{FieldAliases, names}

abbrev pub proxy_host_field : Text
proxy_host_field = codes "proxy_host"

-- RequiredFields of the bot stream and of the web-log stream.
abbrev pub bot_required : FieldAliases → List Text
bot_required aliases = names aliases

abbrev pub web_required : FieldAliases → List Text
web_required aliases = names aliases ++ (proxy_host_field ∷ [])

abbrev pub contains_name : Text → List Text → Bool
contains_name name = any (λ x. same x name)

abbrev pub add_new : List Text → Text → List Text
add_new out v = if contains_name v out then out else out ++ (v ∷ [])

unfoldable pub add_all : List Text → List Text → List Text
add_all out [] = out
add_all out (v ∷ vs) = add_all (add_new out v) vs

unfoldable pub merge_unique : List Text → List Text → List Text
unfolding add_all
merge_unique base extras = add_all (add_all [] base) extras

-- What is kept, and what is dropped.
unfoldable pub cap_extract_fields : List Text → List Text × List Text
cap_extract_fields fields =
    if leb (length fields) max_extras
    then (fields, [])
    else (take max_extras fields, drop max_extras fields)

unfoldable pub missing_from_extract : List Text → List Text → List Text
missing_from_extract labels extract = keep (λ l. not (contains_name l extract)) labels

abbrev pub high_card_label_denylist : List Text
high_card_label_denylist =
    codes "remote_addr"
    ∷ codes "http_user_agent"
    ∷ codes "http_referer"
    ∷ codes "http_x_forwarded_for"
    ∷ codes "request_id"
    ∷ codes "args"
    ∷ codes "query_string"
    ∷ codes "uid_got"
    ∷ codes "uid_set"
    ∷ codes "http_cookie"
    ∷ []

unfoldable pub high_card_labels : List Text → List Text
high_card_labels labels = keep (λ l. contains_name l high_card_label_denylist) labels

pub data Warning : Type 0 where
  high_card_label : List Text → Warning
  no_ua_field : Warning
  no_time_field : Warning
  no_method_field : Warning
  truncated_extract : List Text → Warning
  missing_extract : List Text → Warning

pub record Streams : Type 0 where
  pub bot_logs : Bool
  pub web_logs : Bool

abbrev pub log_streams_enabled : Streams → Bool
log_streams_enabled s = s.bot_logs || s.web_logs

-- What the streams that are on read.
abbrev pub required : Streams → FieldAliases → List Text
required s aliases = if s.web_logs then web_required aliases else bot_required aliases

-- ExtractFields before the cap.
unfoldable pub wanted_fields : Streams → List Text → FieldAliases → List Text
unfolding merge_unique
wanted_fields s labels aliases =
    if log_streams_enabled s then merge_unique labels (required s aliases) else labels

-- What the collector is made with. Without a stream the given names stay.
unfoldable pub wire : Streams → List Text → FieldAliases → Names → Names
unfolding wanted_fields cap_extract_fields
wire s labels aliases given = record {
  extract_fields = (cap_extract_fields (wanted_fields s labels aliases)).0;
  method_field = if log_streams_enabled s then aliases.method else given.method_field;
  time_field = if log_streams_enabled s then aliases.time else given.time_field;
}

abbrev pub warn : Bool → Warning → List Warning
warn b w = if b then w ∷ [] else []

-- In the order of registerLogCollector, but for the mismatch of the aliases, which App/Aliases finds.
unfoldable pub warnings : Streams → List Text → FieldAliases → List Warning
unfolding wanted_fields cap_extract_fields missing_from_extract high_card_labels
warnings s labels aliases =
    let (kept, dropped) = cap_extract_fields (wanted_fields s labels aliases) in
    let bad = high_card_labels labels in
    let missing = missing_from_extract labels kept in
    warn (leb 1 (length bad)) (high_card_label bad)
    ++ warn (s.bot_logs && is_empty aliases.user_agent) no_ua_field
    ++ warn (s.bot_logs && is_empty aliases.time) no_time_field
    ++ warn (s.bot_logs && is_empty aliases.method) no_method_field
    ++ warn (leb 1 (length dropped)) (truncated_extract dropped)
    ++ warn (leb 1 (length missing)) (missing_extract missing)
