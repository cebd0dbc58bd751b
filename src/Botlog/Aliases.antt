-- ===== src/Botlog/Aliases.antt =====
-- FieldAliases of internal/topsrv/botlog/aliases.go: which field of a line holds what.
use topsrv.Base.{not, List, [], ◌∷◌, Text, codes, is_empty, keep, if◌then◌else◌, ◌≡◌, refl}

pub record FieldAliases : Type 0 where
  pub user_agent : Text
  pub host : Text
  pub server_name : Text
  pub remote_addr : Text
  pub referer : Text
  pub method : Text
  pub time : Text

unfoldable pub default_aliases : FieldAliases
default_aliases = record {
  user_agent = codes "http_user_agent";
  host = codes "host";
  server_name = codes "server_name";
  remote_addr = codes "remote_addr";
  referer = codes "http_referer";
  method = [];
  time = [];
}

abbrev pub or_else : Text → Text → Text
or_else s t = if is_empty s then t else s

unfoldable pub with_fallback : FieldAliases → FieldAliases → FieldAliases
with_fallback a fallback = record {
  user_agent = or_else a.user_agent fallback.user_agent;
  host = or_else a.host fallback.host;
  server_name = or_else a.server_name fallback.server_name;
  remote_addr = or_else a.remote_addr fallback.remote_addr;
  referer = or_else a.referer fallback.referer;
  method = or_else a.method fallback.method;
  time = or_else a.time fallback.time;
}

abbrev pub extras : FieldAliases → List Text
extras a = a.user_agent ∷ a.host ∷ a.server_name ∷ a.remote_addr ∷ a.referer ∷ []

-- Names: the five fields that travel as extras, less the empty ones.
unfoldable pub names : FieldAliases → List Text
names a = keep (λ s. not (is_empty s)) (extras a)

or_else_assoc : (s t u : Text) → or_else (or_else s t) u ≡ or_else s (or_else t u)
or_else_assoc [] t u = refl
or_else_assoc (c ∷ s) t u = refl

or_else_none : (s : Text) → or_else s [] ≡ s
or_else_none [] = refl
or_else_none (c ∷ s) = refl

abbrev pub no_aliases : FieldAliases
no_aliases = record {
  user_agent = [];
  host = [];
  server_name = [];
  remote_addr = [];
  referer = [];
  method = [];
  time = [];
}

-- Layers of aliases may be bracketed either way, and a layer that names nothing changes nothing.
pub with_fallback_lem :
    (a b c : FieldAliases)
    → (with_fallback (with_fallback a b) c ≡ with_fallback a (with_fallback b c))
      × (with_fallback a no_aliases ≡ a)
      × (with_fallback no_aliases a ≡ a)
unfolding with_fallback
with_fallback_lem a b c = (
  λ i. record {
    user_agent = or_else_assoc a.user_agent b.user_agent c.user_agent i;
    host = or_else_assoc a.host b.host c.host i;
    server_name = or_else_assoc a.server_name b.server_name c.server_name i;
    remote_addr = or_else_assoc a.remote_addr b.remote_addr c.remote_addr i;
    referer = or_else_assoc a.referer b.referer c.referer i;
    method = or_else_assoc a.method b.method c.method i;
    time = or_else_assoc a.time b.time c.time i;
  },
  λ i. record {
    user_agent = or_else_none a.user_agent i;
    host = or_else_none a.host i;
    server_name = or_else_none a.server_name i;
    remote_addr = or_else_none a.remote_addr i;
    referer = or_else_none a.referer i;
    method = or_else_none a.method i;
    time = or_else_none a.time i;
  },
  refl,
)
