-- ===== src/App/Tests.antt =====
-- The fields of both streams beside two labels.
use topsrv.Base.{has_prefix, All, ◌++◌, Text, codes, [], ◌∷◌, refl, ◌≡◌, same, true, List, ◌⊎◌}
use topsrv.App.Aliases.{
  LogFormats, resolve_aliases, resolve_paths, resolve_path, resolved_for, resolve_aliases-Agree,
}
use topsrv.Botlog.Detect.{
  detect_text_var, detect_json_key, detect_aliases, has_var, begins_var, json_key, key_at,
}
use topsrv.App.{
  Streams, wire, wanted_fields, cap_extract_fields, contains_name, no_time_field, no_method_field,
  high_card_label, warnings,
}
use topsrv.App.Fields.{observers_read, read, or_nothing}
use topsrv.Botlog.Aliases.{no_aliases, with_fallback, names, default_aliases}
use topsrv.Nginx.Line.{Names}

abbrev both : Streams
both = record { bot_logs = true; web_logs = true }

abbrev labels : List Text
labels = codes "host" ∷ codes "a" ∷ codes "args" ∷ codes "b" ∷ []

abbrev given : Names
given = record { extract_fields = []; method_field = []; time_field = [] }

abbrev value_of : Text → Text
value_of name = codes "=" ++ name

last_dropped :
    (cap_extract_fields (wanted_fields both labels default_aliases)).1 ≡ codes "proxy_host" ∷ []
unfolding cap_extract_fields wanted_fields same default_aliases names
last_dropped = refl

warned :
    warnings both (codes "args" ∷ []) default_aliases
    ≡ high_card_label (codes "args" ∷ []) ∷ no_time_field ∷ no_method_field ∷ []
unfolding warnings same default_aliases names
warned = refl

observers_read_example :
    (read (wire both labels default_aliases given) value_of (codes "http_referer")
      ≡ or_nothing (codes "http_referer") (value_of (codes "http_referer")))
    ⊎ ((contains_name
            (codes "http_referer")
            (cap_extract_fields (wanted_fields both labels default_aliases)).1
          ≡ true)
        × (read (wire both labels default_aliases given) value_of (codes "http_referer") ≡ []))
unfolding default_aliases same names
observers_read_example =
    observers_read both labels default_aliases given value_of (codes "http_referer") refl refl

abbrev json_format : Text
json_format = codes "{\"ref\" : \"$http_referer\",\"x\":\"$http_referrer\"}"

abbrev two_formats : LogFormats
two_formats = record {
  log_paths = codes "/a.log" ∷ codes "/b.log" ∷ [];
  log_format = codes "$host $http_user_agent $http_referrer $msec";
  log_formats = (codes "/b.log", json_format) ∷ [];
  json_paths = codes "/b.log" ∷ [];
}

typo_found :
    detect_text_var two_formats.log_format (codes "http_referer" ∷ codes "http_referrer" ∷ [])
    ≡ codes "http_referrer"
unfolding detect_text_var has_var begins_var has_prefix
typo_found = refl

key_found : detect_json_key json_format (codes "http_referer" ∷ []) ≡ codes "ref"
unfolding detect_json_key json_key key_at begins_var has_prefix
key_found = refl

reported : (resolve_aliases no_aliases two_formats).mismatched ≡ codes "/b.log" ∷ []
unfolding resolve_aliases resolve_paths resolve_path resolved_for detect_aliases with_fallback
    default_aliases detect_text_var has_var begins_var has_prefix detect_json_key json_key key_at
    same
reported = refl

abbrev one_format : LogFormats
one_format = record two_formats { log_formats = []; json_paths = [] }

all_alike : (resolve_aliases no_aliases one_format).mismatched ≡ []
unfolding resolve_aliases resolve_paths resolve_path resolved_for detect_aliases with_fallback
    default_aliases detect_text_var has_var begins_var has_prefix same
all_alike = refl

resolve_aliases-Agree_example :
    All
      (λ p.
        resolved_for no_aliases one_format p ≡ (resolve_aliases no_aliases one_format).canonical)
      one_format.log_paths
resolve_aliases-Agree_example =
    resolve_aliases-Agree no_aliases one_format (refl, (refl, tt)) all_alike
