-- ===== src/Weblog/Config/Tests.antt =====
-- Validate of both streams on small configurations.
use topsrv.Base.{
  Text, codes, [], ◌∷◌, ◌++◌, refl, ◌≡◌, ◌≢◌, same, join, clean, some, none, pos, false, true,
}
use topsrv.Botlog.Aliases.{default_aliases}
use topsrv.Botlog.Config.{Parsers, PushConfig, BotConfig, passed, validate_bot}
use topsrv.Weblog.Config.{WebConfig, validate_web}
use topsrv.Weblog.Config.Spools.{spools_apart}

abbrev parsers : Parsers Text
parsers = record {
  parse_url = λ s. some s;
  with_path = λ path u. u ++ path;
  show_url = λ u. u;
  parse_duration = λ s. none;
}

abbrev push : PushConfig
push = record { endpoint = codes "http://h"; spool_dir = codes "/var/./spool/" }

abbrev bot : BotConfig
bot = record {
  enabled = true;
  endpoint = [];
  token = codes "b";
  batch_size = 0;
  batch_interval = [];
  spool_dir = [];
  max_spool_mb = 0;
  ua_truncate = 0;
  uri_truncate = 0;
  extra_ua_patterns = [];
  field_aliases = default_aliases;
  parsed_batch_interval = pos 0;
}

abbrev bot_ready : BotConfig
bot_ready = record bot {
  endpoint = codes "http://h/v1/bot-logs";
  batch_size = 5000;
  batch_interval = codes "30s";
  spool_dir = codes "/var/spool/botlog";
  max_spool_mb = 200;
  ua_truncate = 1024;
  uri_truncate = 2048;
  parsed_batch_interval = pos 30000000000;
}

abbrev web : WebConfig
web = record {
  enabled = true;
  token = codes "w";
  endpoint = codes "http://e";
  log_paths = codes "/a.log" ∷ [];
  require_upstream = false;
  upstreams = [];
  exclude_path_prefixes = [];
  batch_size = 10;
  batch_interval = [];
  spool_dir = codes "/x/../y";
  max_spool_mb = 0;
  ua_truncate = 0;
  uri_truncate = 0;
  parsed_batch_interval = pos 0;
}

abbrev web_ready : WebConfig
web_ready = record web {
  batch_interval = codes "30s";
  spool_dir = codes "/y/weblog";
  max_spool_mb = 200;
  ua_truncate = 1024;
  uri_truncate = 2048;
  parsed_batch_interval = pos 30000000000;
}

bot_filled : validate_bot parsers push bot ≡ passed bot_ready
unfolding validate_bot join same
bot_filled = refl

web_filled : validate_web parsers push bot.token web ≡ passed web_ready
unfolding validate_web join same
web_filled = refl

up_from_root : clean (codes "/../a//b/.") ≡ codes "/a/b"
unfolding clean same
up_from_root = refl

spools_apart_example : bot_ready.spool_dir ≢ web_ready.spool_dir
spools_apart_example =
    spools_apart parsers push bot bot_ready web web_ready bot_filled web_filled refl
