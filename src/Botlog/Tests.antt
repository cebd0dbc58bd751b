-- ===== src/Botlog/Tests.antt =====
-- Runs of the bot-log stream on small inputs.
use topsrv.Base.{contains, Text, [], ◌∷◌, codes, refl, ◌≡◌, same}
use topsrv.Botlog.Match.{Matched, match_ua, match_ua_lem}
use topsrv.Botlog.Aliases.{FieldAliases, no_aliases}

abbrev agent : Text
agent = codes "curl Googlebot/2.1 Mobile"

googlebot : match_ua agent [] ≡ (codes "google", codes "googlebot-smartphone")
unfolding match_ua contains same
googlebot = refl

match_ua_lem_example : Matched agent (codes "Bot" ∷ []) (match_ua agent (codes "Bot" ∷ []))
match_ua_lem_example = match_ua_lem agent (codes "Bot" ∷ []) refl

abbrev json_aliases : FieldAliases
json_aliases = record no_aliases { referer = codes "ref"; time = codes "ts" }
