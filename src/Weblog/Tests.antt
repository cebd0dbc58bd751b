-- ===== src/Weblog/Tests.antt =====
-- Runs of the checks of internal/topsrv/weblog on small inputs.
use topsrv.Base.{same, [], ◌∷◌, ◌++◌, true, codes, refl, ◌≡◌}
use topsrv.Botlog.Aliases.{default_aliases}
use topsrv.Weblog.Formats.{Config, LogConfig, check_formats, scan_vars, vars_of, has}
use topsrv.Weblog.Formats.Vars.{vars_of-has}

abbrev log : LogConfig
log = record {
  log_paths = codes "/a.log" ∷ codes "/b.log" ∷ [];
  log_format = codes "$remote_addr $request $status $upstream_response_time";
  log_formats = (codes "/b.log", codes "$remote_addr $request $status $http_cookie") ∷ [];
}

abbrev cfg : Config
cfg = record {
  log_paths = codes "/a.log" ∷ codes "/b.log" ∷ codes "/c.log" ∷ [];
  require_upstream = true;
  upstreams = codes "api" ∷ [];
}

only_safe : (check_formats cfg log default_aliases).0 ≡ codes "/a.log" ∷ []
unfolding check_formats default_aliases same scan_vars
only_safe = refl

vars_of-has_example :
    has (vars_of (codes "ip=" ++ 36 ∷ codes "http_cookie" ++ codes "\n")) (codes "http_cookie")
    ≡ true
vars_of-has_example = vars_of-has (codes "ip=") (codes "http_cookie") (codes "\n") refl refl refl
