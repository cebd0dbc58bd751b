-- ===== src/Nginx/Paths.antt =====
-- The labels of request paths, internal/topsrv/nginx/log.go: normalizePath, normalizeURI, resolveURI.
pub mod Clean
pub mod Digits
pub mod Label
use topsrv.Base.{
  zero, suc, length, ◌++◌, ltb, has_prefix, [], ◌&&◌, ◌+◌, drop, contains, is_empty, ◌-◌, none,
  some, true, leb, false, ◌∷◌, suc, if◌then◌else◌, any, not, ◌||◌, cut_at, List, Option, eqb, Text,
  is_digit, Bool, codes, ℕ,
}
use topsrv.Runes.{truncate_at_rune}
use topsrv.Nginx.Fields.{strip_query, raw_uri_from_request, join_path_args, present}
use topsrv.Nginx.Regex.{Re, at_end, byte, run, follow, either, plus, literal, exactly, replace_all}

abbrev pub max_path_depth : ℕ
max_path_depth = 2

abbrev pub max_normalized_uri_bytes : ℕ
max_normalized_uri_bytes = 240

abbrev pub max_raw_path_bytes : ℕ
max_raw_path_bytes = 1024

abbrev pub rest_marker : Text
rest_marker = codes "/:rest"

abbrev pub invalid_marker : Text
invalid_marker = codes "/:invalid"

abbrev is_lower : ℕ → Bool
is_lower c = leb b'a' c && leb c b'z'

abbrev pub is_capital : ℕ → Bool
is_capital c = leb b'A' c && leb c b'Z'

abbrev is_hex_lower : ℕ → Bool
is_hex_lower c = is_digit c || (leb b'a' c && leb c b'f')

abbrev is_hex : ℕ → Bool
is_hex c = is_hex_lower c || (leb b'A' c && leb c b'F')

-- \w
abbrev is_word : ℕ → Bool
is_word c = is_digit c || is_lower c || is_capital c || eqb c b'_'

abbrev is_word_dash : ℕ → Bool
is_word_dash c = is_word c || eqb c b'-'

abbrev is_token_byte : ℕ → Bool
is_token_byte c = is_word_dash c || eqb c b'+'

abbrev not_slash : ℕ → Bool
not_slash c = not (eqb c b'/')

abbrev slash : Re
slash = byte (eqb b'/')

abbrev dash : Re
dash = byte (eqb b'-')

abbrev pub numeric_segment : Re
numeric_segment = follow slash (run is_digit 1)

abbrev uuid_segment : Re
uuid_segment = follow (exactly is_hex 8) (
    follow dash (
      follow (exactly is_hex 4) (
        follow dash (
          follow (exactly is_hex 4)
            (follow dash (follow (exactly is_hex 4) (follow dash (exactly is_hex 12))))))))

abbrev hex_hash : Re
hex_hash = run is_hex_lower 32

abbrev slug_with_id : Re
slug_with_id =
    follow
      (follow slash
        (follow (byte is_lower) (follow (run is_word_dash 0) (follow dash (run is_digit 4)))))
      slash

abbrev is_slug_byte : ℕ → Bool
is_slug_byte c = is_lower c || is_digit c

abbrev hyphen_slug : Re
hyphen_slug =
    follow slash (
      follow (byte is_lower)
        (follow (run is_slug_byte 0) (plus (follow dash (run is_slug_byte 1)))))

abbrev url_encoded_segment : Re
url_encoded_segment = follow slash (
    follow (run not_slash 0) (
      follow (byte (eqb b'%')) (
        follow (either (exactly is_hex 2) (follow (byte (eqb b'u')) (exactly is_hex 4)))
          (run not_slash 0))))

abbrev xen_foro_slug : Re
xen_foro_slug =
    follow
      (follow slash (
        follow (byte is_word)
          (follow (run is_word_dash 0) (follow (byte (eqb b'.')) (run is_digit 1)))))
      slash

abbrev base64_token : Re
base64_token =
    follow (run is_token_byte 6)
      (follow (either (literal (codes "==")) (literal (codes "="))) (run not_slash 0))

abbrev long_base64_token : Re
long_base64_token = follow slash (run is_word_dash 32)

abbrev file_numeric_suffix : Re
file_numeric_suffix = follow (byte (eqb b'_')) (run is_digit 3)

abbrev php_file : Re
php_file = follow slash (follow (run not_slash 1) (follow (literal (codes ".php")) at_end))

-- The length of the first character of a text in UTF-8, 0 where there is none.
abbrev is_tail : ℕ → Bool
is_tail c = leb 128 c && leb c 191

abbrev two : ℕ → ℕ → Text → ℕ
two lo hi [] = 0
two lo hi (d ∷ s) = if leb lo d && leb d hi then 2 else 0

abbrev three : ℕ → ℕ → Text → ℕ
three lo hi [] = 0
three lo hi (d ∷ []) = 0
three lo hi (d ∷ e ∷ s) = if leb lo d && leb d hi && is_tail e then 3 else 0

abbrev four : ℕ → ℕ → Text → ℕ
four lo hi [] = 0
four lo hi (d ∷ []) = 0
four lo hi (d ∷ e ∷ []) = 0
four lo hi (d ∷ e ∷ f ∷ s) = if leb lo d && leb d hi && is_tail e && is_tail f then 4 else 0

abbrev rune_len : ℕ → Text → ℕ
rune_len c s =
    if ltb c 128
    then 1
    else if leb 194 c && leb c 223
    then two 128 191 s
    else if eqb c 224
    then three 160 191 s
    else if eqb c 237
    then three 128 159 s
    else if leb 225 c && leb c 239
    then three 128 191 s
    else if eqb c 240
    then four 144 191 s
    else if leb 241 c && leb c 243
    then four 128 191 s
    else if eqb c 244
    then four 128 143 s
    else 0

-- utf8.ValidString; the number counts the bytes of a character that are still to come.
unfoldable pub valid_from : ℕ → Text → Bool
valid_from n [] = true
valid_from (suc n) (c ∷ s) = valid_from n s
valid_from zero (c ∷ s) =
    let rest = valid_from (rune_len c s - 1) s in if eqb (rune_len c s) 0 then false else rest

abbrev starts_x : Text → Bool
starts_x [] = false
starts_x (c ∷ s) = eqb c b'x'

-- A control byte, or an escape that nginx writes for one.
unfoldable pub has_control : Text → Bool
has_control [] = false
has_control (c ∷ s) = ltb c 32 || (eqb c b'\\' && starts_x s) || has_control s

abbrev has_upper : Text → Bool
has_upper s = any is_capital s

-- strings.ToLower, where it can give an ASCII letter: U+0130 and U+212A are lowered to i and k. Other
-- characters are left as they are.
abbrev folded : ℕ → Text → ℕ × ℕ
folded c s =
    if has_prefix (196 ∷ 176 ∷ []) (c ∷ s)
    then (b'i', 1)
    else if has_prefix (226 ∷ 132 ∷ 170 ∷ []) (c ∷ s)
    then (b'k', 2)
    else ((if is_capital c then c + 32 else c), 0)

-- The number counts the bytes of a character that are dropped.
unfoldable pub lower_from : ℕ → Text → Text
lower_from n [] = []
lower_from (suc n) (c ∷ s) = lower_from n s
lower_from zero (c ∷ s) = let (d, skip) = folded c s in d ∷ lower_from skip s

abbrev scanner_suffixes : List Text
scanner_suffixes =
    codes ".env"
    ∷ codes ".git"
    ∷ codes ".aws"
    ∷ codes ".ssh"
    ∷ codes ".svn"
    ∷ codes ".bak"
    ∷ codes ".sql"
    ∷ []

unfoldable pub is_scanner : Text → Bool
is_scanner path =
    let haystack = if has_upper path then lower_from 0 path else path in
    any (λ suffix. contains suffix haystack) scanner_suffixes

abbrev pub const : Text → Text → Text
const marker m = marker

-- A long segment with a capital is a random token.
abbrev pub rest_of_token : Text → Text
rest_of_token m = if any is_capital (drop 1 m) then rest_marker else m

unfoldable pub with_ids : Text → Text
with_ids path =
    let p1 = replace_all php_file (const (codes "/:file.php")) path in
    let p2 = replace_all uuid_segment (const (codes ":uuid")) p1 in
    let p3 = replace_all base64_token (const (codes ":token")) p2 in
    let p4 = replace_all xen_foro_slug (const (codes "/:slug/")) p3 in
    let p5 = replace_all url_encoded_segment (const (codes "/:slug")) p4 in
    let p6 = replace_all hex_hash (const (codes ":hash")) p5 in
    replace_all numeric_segment (const (codes "/:id")) p6

unfoldable pub with_slugs : Bool → Text → Text
with_slugs upper path =
    let p1 = replace_all slug_with_id (const (codes "/:slug/")) path in
    let p2 = replace_all hyphen_slug (const (codes "/:slug")) p1 in
    let p3 = replace_all file_numeric_suffix (const (codes "_:id")) p2 in
    if upper then replace_all long_base64_token rest_of_token p3 else p3

-- strings.TrimRight(path, "/")
unfoldable pub trim_slashes : Text → Text
trim_slashes [] = []
trim_slashes (c ∷ s) =
    let rest = trim_slashes s in if is_empty rest && eqb c b'/' then [] else c ∷ rest

abbrev pub grow : ℕ → Option Text → Option Text
grow c none = none
grow c (some s) = some (c ∷ s)

-- What stands before the slash at which the depth is reached.
unfoldable pub before_depth : ℕ → Text → Option Text
before_depth depth [] = none
before_depth depth (c ∷ s) =
    let deeper = before_depth (depth + 1) s in
    let same_depth = before_depth depth s in
    if eqb c b'/'
    then (if leb max_path_depth (depth + 1) then some [] else grow c deeper)
    else grow c same_depth

abbrev pub or_rest : Text → ℕ → Option Text → Text
or_rest path c none = path
or_rest path c (some s) = c ∷ (s ++ rest_marker)

abbrev pub truncate_of : Text → Text → Text
truncate_of path [] = path
truncate_of path (c ∷ s) = or_rest path c (before_depth 0 s)

unfoldable pub truncate_path : Text → Text
unfolding trim_slashes before_depth
truncate_path path = truncate_of path (trim_slashes path)

unfoldable pub cap : Text → Text
unfolding truncate_at_rune
cap out =
    if ltb max_normalized_uri_bytes (length out)
    then truncate_at_rune out (max_normalized_uri_bytes - length rest_marker) ++ rest_marker
    else out

unfoldable pub normalize_path : Text → Text
unfolding valid_from has_control is_scanner with_ids with_slugs truncate_path cap
normalize_path path =
    if ltb max_raw_path_bytes (length path) || not (valid_from 0 path) || has_control path
    then invalid_marker
    else if is_scanner path
    then codes "/:bot-scanners"
    else cap (truncate_path (with_slugs (has_upper path) (with_ids path)))

-- The second word of a request line, up to the query.
unfoldable pub normalize_uri : Text → Text
unfolding strip_query
normalize_uri request = elim (cut_at b' ' request) [
  | none ↦ invalid_marker
  | some (verb, rest) ↦ normalize_path (strip_query (raw_uri_from_request request))
]

abbrev args_of : (Text → Text) → Text
args_of get =
    if is_empty (present (get (codes "args")))
    then present (get (codes "query_string"))
    else get (codes "args")

-- The label and the raw URI.
unfoldable pub resolve_uri : (Text → Text) → Text × Text
resolve_uri get =
    if not (is_empty (present (get (codes "request_uri"))))
    then (normalize_path (strip_query (get (codes "request_uri"))), get (codes "request_uri"))
    else if not (is_empty (present (get (codes "request"))))
    then (normalize_uri (get (codes "request")), raw_uri_from_request (get (codes "request")))
    else if not (is_empty (present (get (codes "uri"))))
    then (
      normalize_path (strip_query (get (codes "uri"))),
      (if is_empty (args_of get)
          then get (codes "uri")
          else join_path_args (get (codes "uri")) (args_of get)),
    )
    else ([], [])
