-- ===== src/Botlog/Detect.antt =====
-- The names of the fields in a log format, internal/topsrv/botlog/aliases.go: DetectAliases, with its
-- regular expressions as scans; and the choice for all paths of internal/app/app.go.
use topsrv.Base.{
  Text, Bool, true, false, Option, some, none, List, [], ◌∷◌, ◌++◌, ℕ, codes, not, ◌&&◌, ◌||◌, eqb,
  leb, drop, length, has_prefix, is_empty, if◌then◌else◌,
}
use topsrv.Botlog.Aliases.{FieldAliases}
use topsrv.Weblog.Formats.{remote_candidates, time_candidates, method_candidates}

abbrev ua_candidates : List Text
ua_candidates = codes "http_user_agent" ∷ []

abbrev host_candidates : List Text
host_candidates = codes "host" ∷ codes "http_host" ∷ []

abbrev server_candidates : List Text
server_candidates = codes "server_name" ∷ []

abbrev referer_candidates : List Text
referer_candidates = codes "http_referer" ∷ codes "http_referrer" ∷ codes "referer" ∷ []

-- [0-9A-Za-z_]
abbrev pub is_word_byte : ℕ → Bool
is_word_byte c =
    (leb b'0' c && leb c b'9')
    || (leb b'A' c && leb c b'Z')
    || (leb b'a' c && leb c b'z')
    || eqb c b'_'

-- \b behind a word.
abbrev pub at_boundary : Text → Bool
at_boundary [] = true
at_boundary (c ∷ s) = not (is_word_byte c)

-- The text begins with the variable.
unfoldable pub begins_var : Text → Text → Bool
unfolding has_prefix
begins_var name s =
    let var : Text = b'$' ∷ name in has_prefix var s && at_boundary (drop (length var) s)

-- textVarRe(name).MatchString
unfoldable pub has_var : Text → Text → Bool
unfolding begins_var
has_var name [] = false
has_var name (c ∷ s) = begins_var name (c ∷ s) || has_var name s

unfoldable pub detect_text_var : Text → List Text → Text
unfolding has_var
detect_text_var format [] = []
detect_text_var format (name ∷ names) =
    let rest = detect_text_var format names in if has_var name format then name else rest

-- \s
abbrev is_blank : ℕ → Bool
is_blank c = eqb c 32 || (leb 9 c && leb c 10) || (leb 12 c && leb c 13)

unfoldable skip_blanks : Text → Text
skip_blanks [] = []
skip_blanks (c ∷ s) = let rest = skip_blanks s in if is_blank c then rest else c ∷ s

-- The text up to the next quote, and what stands behind it.
unfoldable quoted : Text → Text → Option (Text × Text)
quoted key [] = none
quoted key (c ∷ s) =
    let rest = quoted (key ++ (c ∷ [])) s in if eqb c b'"' then some (key, s) else rest

-- What stands behind the byte, where the text begins with it.
abbrev behind : ℕ → Text → Option Text
behind c [] = none
behind c (d ∷ s) = if eqb c d then some s else none

abbrev names_var : Text → Text → Option Text → Option Text
names_var name key none = none
names_var name key (some s) = if begins_var name s then some key else none

abbrev colon_var : Text → Text → Option Text → Option Text
colon_var name key none = none
colon_var name key (some s) = names_var name key (behind b'"' (skip_blanks s))

abbrev key_var : Text → Option (Text × Text) → Option Text
key_var name none = none
key_var name (some (key, s)) =
    if is_empty key then none else colon_var name key (behind b':' (skip_blanks s))

-- The key of a match of jsonKeyRe(name) at a text that begins with a quote.
unfoldable pub key_at : Text → Text → Option Text
unfolding quoted skip_blanks begins_var
key_at name [] = none
key_at name (c ∷ s) = if eqb c b'"' then key_var name (quoted [] s) else none

abbrev or_later : Option Text → Option Text → Option Text
or_later (some key) later = some key
or_later none later = later

-- The leftmost match.
unfoldable pub json_key : Text → Text → Option Text
unfolding key_at
json_key name [] = none
json_key name (c ∷ s) = or_later (key_at name (c ∷ s)) (json_key name s)

abbrev or_rest : Text → Option Text → Text
or_rest rest none = rest
or_rest rest (some key) = key

unfoldable pub detect_json_key : Text → List Text → Text
unfolding json_key
detect_json_key format [] = []
detect_json_key format (name ∷ names) =
    or_rest (detect_json_key format names) (json_key name format)

unfoldable pub detect_aliases : Text → Bool → FieldAliases
unfolding detect_text_var detect_json_key
detect_aliases format is_json =
    let detect : List Text → Text =
      if is_json then detect_json_key format else detect_text_var format in
    record {
      user_agent = detect ua_candidates;
      host = detect host_candidates;
      server_name = detect server_candidates;
      remote_addr = detect remote_candidates;
      referer = detect referer_candidates;
      method = detect method_candidates;
      time = detect time_candidates;
    }
