-- ===== src/Weblog/Config/Spools.antt =====
-- The directories in which the two streams keep what they could not send.
use topsrv.Base.{
  ℕ, ◌||◌, if◌then◌else◌, none, some, Option, subst, ◌∙◌, same_eq, not, ◌&&◌, ℤ, some, same_eq,
  subst, inr, ℤ, inl, Option, Text, Bool, true, false, codes, same, ◌≡◌, ◌≢◌, refl, sym, join,
  join-last, IsSegment, is_empty, Bool-cases, ◌∷◌, [],
}
use topsrv.Push.State.{has_suffix}
use topsrv.Push.Listing.{has_suffix-append}
use topsrv.Botlog.Config.{
  ConfigError, Parsers, PushConfig, BotConfig, Checked, refused, passed, spool_in, validate_bot,
  fill_bot, endpoint_of, batch_interval_of,
}
use topsrv.Botlog.Config as Bot
use topsrv.Weblog.Config.{ingest_path, WebConfig, validate_web, fill_web, validate_log_paths}

web_no_bot : has_suffix (codes "botlog") (codes "weblog") ≢ true
unfolding has_suffix same
web_no_bot h = cc

either_true : (a b : Bool) → a || b ≡ true → a ≡ false → b ≡ true
either_true true b h e = absurd cc
either_true false b h e = h

has_suffix-tail :
    (suf : Text) (c : ℕ) (s : Text)
    → has_suffix suf (c ∷ s) ≡ true
    → same suf (c ∷ s) ≡ false
    → has_suffix suf s ≡ true
unfolding has_suffix
has_suffix-tail suf c s h e = either_true (same suf (c ∷ s)) (has_suffix suf s) h e

-- Two texts of one length cannot both end a text.
one_suffix :
    (s : Text) → has_suffix (codes "botlog") s ≡ true → has_suffix (codes "weblog") s ≡ false
unfolding has_suffix same
one_suffix [] h = refl
one_suffix (c ∷ s) h = elim (Bool-cases (same (codes "botlog") (c ∷ s))) [
  | inl e ↦
      subst (λ t. has_suffix (codes "weblog") t ≡ false) (same_eq (codes "botlog") (c ∷ s) e) refl
  | inr e ↦
      let rest = one_suffix s (has_suffix-tail (codes "botlog") c s h e) in
      elim (Bool-cases (same (codes "weblog") (c ∷ s))) [
        | inl f ↦ absurd (
            web_no_bot (
              subst (λ t. has_suffix (codes "botlog") t ≡ true)
                (sym (same_eq (codes "weblog") (c ∷ s) f)) h))
        | inr f ↦ rw f rest
      ]
]

kept_empty :
    (subdir dir : Text)
    → is_empty dir ≡ true
    → is_empty (if is_empty dir then dir else join dir subdir) ≡ true
kept_empty subdir dir e = rw (e, e) refl

joined-suffix :
    (subdir dir : Text)
    → IsSegment subdir
    → is_empty (if is_empty dir then dir else join dir subdir) ≡ false
    → has_suffix subdir (if is_empty dir then dir else join dir subdir) ≡ true
joined-suffix subdir dir seg set = elim (Bool-cases (is_empty dir)) [
  | inl e ↦ absurd (let k = kept_empty subdir dir e in cc)
  | inr e ↦ let (t, f) = join-last dir subdir seg in rw (e, f) (has_suffix-append t subdir)
]

-- A directory, where one is set, ends in the name of the stream.
spool_in-suffix :
    (subdir push own : Text)
    → IsSegment subdir
    → is_empty (spool_in subdir push own) ≡ false
    → has_suffix subdir (spool_in subdir push own) ≡ true
unfolding spool_in
spool_in-suffix subdir push own seg set =
    joined-suffix subdir (if is_empty own && not (is_empty push) then push else own) seg set

ends_apart :
    (push bot web : Text)
    → is_empty (spool_in (codes "botlog") push bot) ≡ false
    → spool_in (codes "botlog") push bot ≢ spool_in (codes "weblog") push web
unfolding same
ends_apart push bot web set e =
    let b = spool_in-suffix (codes "botlog") push bot (refl, refl, refl) set in
    let w =
      spool_in-suffix (codes "weblog") push web (refl, refl, refl)
        (subst (λ t. is_empty t ≡ false) e set) in
    let n =
      one_suffix (spool_in (codes "weblog") push web)
        (subst (λ t. has_suffix (codes "botlog") t ≡ true) e b) in
    cc

abbrev BotSpool : Text → Checked BotConfig → Type 0
BotSpool dir (refused e) = Unit
BotSpool dir (passed c) = c.spool_dir ≡ dir

abbrev WebSpool : Text → Checked WebConfig → Type 0
WebSpool dir (refused e) = Unit
WebSpool dir (passed c) = c.spool_dir ≡ dir

module _ {U : Type 0} (parsers : Parsers U) where
  fill_bot-spool :
      (push : PushConfig) (c : BotConfig) (endpoint : Checked Text) (interval : Checked (Text × ℤ))
      → BotSpool
          (spool_in (codes "botlog") push.spool_dir c.spool_dir)
          (fill_bot parsers push c endpoint interval)
  unfolding fill_bot
  fill_bot-spool push c (refused e) interval = tt
  fill_bot-spool push c (passed e) (refused f) = tt
  fill_bot-spool push c (passed e) (passed (text, d)) = refl

  fill_web-spool :
      (push : PushConfig) (c : WebConfig) (paths : Option ConfigError) (endpoint : Checked Text)
      (interval : Checked (Text × ℤ))
      → WebSpool
          (spool_in (codes "weblog") push.spool_dir c.spool_dir)
          (fill_web parsers push c paths endpoint interval)
  unfolding fill_web
  fill_web-spool push c (some e) endpoint interval = tt
  fill_web-spool push c none (refused e) interval = tt
  fill_web-spool push c none (passed e) (refused f) = tt
  fill_web-spool push c none (passed e) (passed (text, d)) = refl

  validate_bot-spool :
      (push : PushConfig) (c : BotConfig)
      → BotSpool
          (spool_in (codes "botlog") push.spool_dir c.spool_dir)
          (validate_bot parsers push c)
  unfolding validate_bot
  validate_bot-spool push c = elim (Bool-cases (is_empty c.token)) [
    | inl e ↦ rw e tt
    | inr e ↦ rw e (
        fill_bot-spool push c (endpoint_of parsers Bot.ingest_path push.endpoint c.endpoint)
          (batch_interval_of parsers c.batch_interval))
  ]

  validate_web-spool :
      (push : PushConfig) (other : Text) (c : WebConfig)
      → WebSpool
          (spool_in (codes "weblog") push.spool_dir c.spool_dir)
          (validate_web parsers push other c)
  unfolding validate_web
  validate_web-spool push other c = elim (Bool-cases (is_empty c.token)) [
    | inl e ↦ rw e tt
    | inr e ↦ elim (Bool-cases (not (is_empty other) && same c.token other)) [
      | inl f ↦ rw (e, f) tt
      | inr f ↦
          rw (e, f)
            (fill_web-spool push c (validate_log_paths c)
              (endpoint_of parsers ingest_path push.endpoint c.endpoint)
              (batch_interval_of parsers c.batch_interval))
    ]
  ]

  -- The two streams never share a spool directory: whatever directories are configured, for the
  -- streams or for the metrics, what both Validate accept has different ones, where the bot stream
  -- has one.
  pub spools_apart :
      (push : PushConfig) (bot bot' : BotConfig) (web web' : WebConfig)
      → validate_bot parsers push bot ≡ passed bot'
      → validate_web parsers push bot.token web ≡ passed web'
      → is_empty bot'.spool_dir ≡ false
      → bot'.spool_dir ≢ web'.spool_dir
  spools_apart push bot bot' web web' h k set e =
      let b =
        subst (BotSpool (spool_in (codes "botlog") push.spool_dir bot.spool_dir)) h
          (validate_bot-spool push bot) in
      let w =
        subst (WebSpool (spool_in (codes "weblog") push.spool_dir web.spool_dir)) k
          (validate_web-spool push bot.token web) in
      ends_apart push.spool_dir bot.spool_dir web.spool_dir (subst (λ t. is_empty t ≡ false) b set)
        (sym b ∙ e ∙ w)
