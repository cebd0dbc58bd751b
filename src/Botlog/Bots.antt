-- ===== src/Botlog/Bots.antt =====
-- The list of internal/topsrv/botlog/ua.go. Its order is a contract: the first match wins.
use Prim.Native.String.{String}
use topsrv.Base.{List, [], ◌∷◌, Text, codes}

pub record BotPattern : Type 0 where
  pub family : Text
  pub pat : Text
  pub name : Text

abbrev bot : String → String → String → BotPattern
bot family pat name = record { family = codes family; pat = codes pat; name = codes name }

abbrev pub known_bots : List BotPattern
known_bots =
    bot "google" "Googlebot-Image" "googlebot-image"
    ∷ bot "google" "Googlebot-News" "googlebot-news"
    ∷ bot "google" "Googlebot-Video" "googlebot-video"
    ∷ bot "google" "AdsBot-Google-Mobile" "adsbot-google-mobile"
    ∷ bot "google" "AdsBot-Google" "adsbot-google"
    ∷ bot "google" "Mediapartners-Google" "mediapartners-google"
    ∷ bot "google" "FeedFetcher-Google" "feedfetcher-google"
    ∷ bot "google" "Googlebot" "googlebot"
    ∷ bot "bing" "BingPreview" "bingpreview"
    ∷ bot "bing" "adidxbot" "adidxbot"
    ∷ bot "bing" "bingbot" "bingbot"
    ∷ bot "bing" "msnbot" "msnbot"
    ∷ bot "duckduckgo" "DuckDuckBot" "duckduckbot"
    ∷ bot "apple" "Applebot" "applebot"
    ∷ bot "yandex" "YandexAccessibilityBot" "yandex-accessibility"
    ∷ bot "yandex" "YandexRenderResourcesBot" "yandex-render"
    ∷ bot "yandex" "YandexMetrika" "yandex-metrika"
    ∷ bot "yandex" "YandexImages" "yandeximages"
    ∷ bot "yandex" "YandexMobileBot" "yandexmobile"
    ∷ bot "yandex" "YandexVideo" "yandexvideo"
    ∷ bot "yandex" "YandexMedia" "yandexmedia"
    ∷ bot "yandex" "YandexTurbo" "yandex-turbo"
    ∷ bot "yandex" "YandexNews" "yandex-news"
    ∷ bot "yandex" "YandexMarket" "yandex-market"
    ∷ bot "yandex" "YandexCalendar" "yandex-calendar"
    ∷ bot "yandex" "YandexDirect" "yandex-direct"
    ∷ bot "yandex" "YandexFavicons" "yandex-favicons"
    ∷ bot "yandex" "YandexBot" "yandexbot"
    ∷ bot "mailru" "Mail.RU_Bot/Img" "mailru-images"
    ∷ bot "mailru" "Mail.RU_Bot/Fast" "mailru-fast"
    ∷ bot "mailru" "Mail.RU_Bot" "mailru"
    ∷ bot "rambler" "StackRambler" "stackrambler"
    ∷ bot "sputnik" "SputnikImageBot" "sputnik-images"
    ∷ bot "sputnik" "SputnikBot" "sputnik"
    ∷ bot "baidu" "Baiduspider-image" "baidu-images"
    ∷ bot "baidu" "Baiduspider-mobile" "baidu-mobile"
    ∷ bot "baidu" "Baiduspider-news" "baidu-news"
    ∷ bot "baidu" "Baiduspider-video" "baidu-video"
    ∷ bot "baidu" "Baiduspider" "baiduspider"
    ∷ bot "sogou" "Sogou web spider" "sogou-web"
    ∷ bot "sogou" "Sogou news spider" "sogou-news"
    ∷ bot "sogou" "Sogou inst spider" "sogou-inst"
    ∷ bot "qihoo" "360Spider" "360spider"
    ∷ bot "qihoo" "HaosouSpider" "haosou"
    ∷ bot "petal" "PetalBot" "petalbot"
    ∷ bot "petal" "AspiegelBot" "aspiegel"
    ∷ bot "naver" "Yeti" "yeti"
    ∷ bot "daum" "Daum" "daum"
    ∷ bot "openai" "GPTBot" "gptbot"
    ∷ bot "openai" "OAI-SearchBot" "oai-searchbot"
    ∷ bot "openai" "ChatGPT-User" "chatgpt-user"
    ∷ bot "anthropic" "Claude-SearchBot" "claude-searchbot"
    ∷ bot "anthropic" "Claude-User" "claude-user"
    ∷ bot "anthropic" "ClaudeBot" "claudebot"
    ∷ bot "anthropic" "Claude-Web" "claude-web"
    ∷ bot "anthropic" "anthropic-ai" "anthropic-ai"
    ∷ bot "perplexity" "PerplexityBot" "perplexitybot"
    ∷ bot "perplexity" "Perplexity-User" "perplexity-user"
    ∷ bot "mistral" "MistralAI-User" "mistral-user"
    ∷ bot "cohere" "cohere-training-data-crawler" "cohere-training"
    ∷ bot "cohere" "cohere-ai" "cohere"
    ∷ bot "amazon" "Amazonbot" "amazonbot"
    ∷ bot "diffbot" "Diffbot" "diffbot"
    ∷ bot "ai2" "AI2Bot" "ai2bot"
    ∷ bot "you" "YouBot" "youbot"
    ∷ bot "timpi" "Timpibot" "timpibot"
    ∷ bot "meta" "meta-externalagent" "meta-externalagent"
    ∷ bot "meta" "meta-externalfetcher" "meta-externalfetcher"
    ∷ bot "meta" "facebookexternalhit" "facebookexternalhit"
    ∷ bot "meta" "FacebookBot" "facebookbot"
    ∷ bot "bytespider" "TikTokSpider" "tiktokspider"
    ∷ bot "bytespider" "Bytespider" "bytespider"
    ∷ bot "common-crawl" "CCBot" "ccbot"
    ∷ bot "ahrefs" "AhrefsSiteAudit" "ahrefs-siteaudit"
    ∷ bot "ahrefs" "AhrefsBot" "ahrefsbot"
    ∷ bot "semrush" "SemrushBot-OCOB" "semrush-ocob"
    ∷ bot "semrush" "SemrushBot-SI" "semrush-si"
    ∷ bot "semrush" "SemrushBot-SWA" "semrush-swa"
    ∷ bot "semrush" "SemrushBot-BA" "semrush-ba"
    ∷ bot "semrush" "SemrushBot" "semrushbot"
    ∷ bot "majestic" "MJ12bot" "mj12bot"
    ∷ bot "moz" "rogerbot" "rogerbot"
    ∷ bot "moz" "DotBot" "dotbot"
    ∷ bot "webmeup" "BLEXBot" "blexbot"
    ∷ bot "dataforseo" "DataForSeoBot" "dataforseobot"
    ∷ bot "twitter" "Twitterbot" "twitterbot"
    ∷ bot "linkedin" "LinkedInBot" "linkedinbot"
    ∷ bot "pinterest" "Pinterestbot" "pinterestbot"
    ∷ bot "pinterest" "Pinterest" "pinterest"
    ∷ bot "slack" "Slackbot-LinkExpanding" "slack-linkexpanding"
    ∷ bot "slack" "Slackbot" "slackbot"
    ∷ bot "discord" "Discordbot" "discordbot"
    ∷ bot "telegram" "TelegramBot" "telegrambot"
    ∷ bot "whatsapp" "WhatsApp" "whatsapp"
    ∷ bot "vk" "vkShare" "vkshare"
    ∷ bot "skype" "SkypeUriPreview" "skype-preview"
    ∷ bot "archive" "archive.org_bot" "archive-org"
    ∷ bot "archive" "ia_archiver" "ia-archiver"
    ∷ []
