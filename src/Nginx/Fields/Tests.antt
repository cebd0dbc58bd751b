-- ===== src/Nginx/Fields/Tests.antt =====
-- A line of a log with named fields.
use topsrv.Base.{Text, [], codes, same, if◌then◌else◌, refl, ◌≡◌, cut_at}
use topsrv.Nginx.Fields.{resolve_method}

abbrev line : Text → Text
line name =
    if same name (codes "request")
    then codes "POST /login HTTP/1.1"
    else if same name (codes "ts")
    then codes "-"
    else if same name (codes "msec")
    then codes "1787.5"
    else []

post : resolve_method (codes "verb") line ≡ codes "POST"
unfolding resolve_method same cut_at
post = refl
