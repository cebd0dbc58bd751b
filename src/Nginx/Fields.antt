-- ===== src/Nginx/Fields.antt =====
-- The fields of a log line, internal/topsrv/nginx/log.go: which of the names an operator may use
-- holds the verb, the time and the client's values, and the parts of a request line.
pub mod Request
pub mod Resolve
mod Tests
use topsrv.Base.{
  ℕ, Bool, true, false, not, ◌&&◌, ◌||◌, List, [], ◌∷◌, ◌++◌, Option, none, some, Text, codes, same,
  is_empty, cut_at, trim_prefix, length, leb, ltb, eqb, if◌then◌else◌,
}

abbrev pub max_method_len : ℕ
max_method_len = 16

abbrev pub is_upper : ℕ → Bool
is_upper c = leb b'A' c && leb c b'Z'

-- The loop of validMethod; a hyphen stands neither first nor last.
unfoldable pub is_token : Bool → Text → Bool
is_token first [] = true
is_token first (c ∷ s) =
    (is_upper c || (eqb c b'-' && not first && not (is_empty s))) && is_token false s

unfoldable pub valid_method : Text → Text
unfolding is_token
valid_method s =
    if is_empty s || ltb max_method_len (length s) then [] else if is_token true s then s else []

-- A bare verb, or the first word of a request line.
unfoldable pub method_of : Text → Text
unfolding valid_method
method_of s =
    if not (is_empty (valid_method s))
    then valid_method s
    else elim (cut_at b' ' s) [ none ↦ [] | some (word, rest) ↦ valid_method word ]

abbrev pub method_names : List Text
method_names = codes "request_method" ∷ codes "request" ∷ []

abbrev pub time_names : List Text
time_names = codes "msec" ∷ codes "time_iso8601" ∷ codes "time_local" ∷ []

-- The first name whose value, read by `pick`, is not empty.
unfoldable pub first_value : (Text → Text) → (Text → Text) → List Text → Text
first_value pick get [] = []
first_value pick get (name ∷ names) =
    let rest = first_value pick get names in
    if is_empty (pick (get name)) then rest else pick (get name)

-- The operator's own name is tried first, where there is one.
abbrev pub named : Text → List Text → List Text
named name names = if is_empty name then names else name ∷ names

unfoldable pub resolve_method : Text → (Text → Text) → Text
unfolding first_value method_of
resolve_method method_field get = first_value method_of get (named method_field method_names)

-- nginx's dash for an absent value is none.
abbrev pub present : Text → Text
present v = if same v (codes "-") then [] else v

unfoldable pub resolve_client_field : (Text → Text) → List Text → Text
unfolding first_value
resolve_client_field get candidates = first_value present get candidates

unfoldable pub resolve_time : Text → (Text → Text) → Text
unfolding first_value
resolve_time time_field get = first_value present get (named time_field time_names)

-- strings.SplitN(request, " ", 3)[1]
unfoldable pub raw_uri_from_request : Text → Text
raw_uri_from_request request = elim (cut_at b' ' request) [
  | none ↦ []
  | some (verb, rest) ↦ elim (cut_at b' ' rest) [ none ↦ rest | some (uri, proto) ↦ uri ]
]

unfoldable pub strip_query : Text → Text
strip_query p = elim (cut_at b'?' p) [ none ↦ p | some (path, query) ↦ path ]

abbrev pub question : Text
question = b'?' ∷ []

unfoldable pub join_path_args : Text → Text → Text
unfolding strip_query
join_path_args path args =
    let a = trim_prefix question args in
    if is_empty a || same a (codes "-") then strip_query path else strip_query path ++ b'?' ∷ a
