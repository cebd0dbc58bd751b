-- ===== src/App/Aliases.antt =====
-- resolveBotlogAliases of internal/app/app.go: the aliases of the first path, and the paths whose
-- format says otherwise. The cache of detections is left out: it holds what a detection returns.
use topsrv.Base.{
  ◌≢◌, subst, ◌∙◌, Text, Bool, true, false, List, [], ◌∷◌, ◌++◌, ◌≡◌, refl, sym, same, same_eq,
  ◌&&◌, is_empty, if◌then◌else◌, Fields, All, Bool-cases, inl, inr,
}
use topsrv.Botlog.Aliases.{FieldAliases, no_aliases, with_fallback, default_aliases}
use topsrv.Botlog.Detect.{detect_aliases}
use topsrv.App.{contains_name}

-- LogConfig, what the resolution reads of it.
pub record LogFormats : Type 0 where
  pub log_paths : List Text
  pub log_format : Text
  pub log_formats : Fields
  pub json_paths : List Text

abbrev pub format_or : Text → Text → List Text → Fields → Text × Bool
format_or format p json [] = (format, false)
format_or format p json ((k, f) ∷ fs) =
    let rest = format_or format p json fs in if same k p then (f, contains_name p json) else rest

abbrev pub format_for : LogFormats → Text → Text × Bool
format_for cfg p = format_or cfg.log_format p cfg.json_paths cfg.log_formats

abbrev pub same_aliases : FieldAliases → FieldAliases → Bool
same_aliases a b =
    same a.user_agent b.user_agent
    && (same a.host b.host
        && (same a.server_name b.server_name
            && (same a.remote_addr b.remote_addr
                && (same a.referer b.referer && (same a.method b.method && same a.time b.time)))))

pub record Resolution : Type 0 where
  pub canonical : FieldAliases
  pub canonical_path : Text
  pub mismatched : List Text

unfoldable pub resolved_for : FieldAliases → LogFormats → Text → FieldAliases
unfolding detect_aliases with_fallback default_aliases
resolved_for override cfg p =
    let (format, is_json) = format_for cfg p in
    with_fallback (with_fallback override (detect_aliases format is_json)) default_aliases

unfoldable pub resolve_path : FieldAliases → LogFormats → Text → Resolution → Resolution
unfolding resolved_for
resolve_path override cfg p r =
    let resolved = resolved_for override cfg p in
    if is_empty r.canonical_path
    then record r { canonical = resolved; canonical_path = p }
    else if same_aliases resolved r.canonical
    then r
    else record r { mismatched = r.mismatched ++ (p ∷ []) }

unfoldable pub resolve_paths : FieldAliases → LogFormats → List Text → Resolution → Resolution
unfolding resolve_path
resolve_paths override cfg [] r = r
resolve_paths override cfg (p ∷ ps) r =
    resolve_paths override cfg ps (resolve_path override cfg p r)

abbrev pub unresolved : Resolution
unresolved = record { canonical = no_aliases; canonical_path = []; mismatched = [] }

unfoldable pub resolve_aliases : FieldAliases → LogFormats → Resolution
unfolding resolve_paths
resolve_aliases override cfg = resolve_paths override cfg cfg.log_paths unresolved

both : (a b : Bool) → a && b ≡ true → (a ≡ true) × (b ≡ true)
both true b h = (refl, h)
both false b h = absurd cc

same_aliases_eq : (a b : FieldAliases) → same_aliases a b ≡ true → a ≡ b
same_aliases_eq a b h =
    let (h1, t1) = both (same a.user_agent b.user_agent) _ h in
    let (h2, t2) = both (same a.host b.host) _ t1 in
    let (h3, t3) = both (same a.server_name b.server_name) _ t2 in
    let (h4, t4) = both (same a.remote_addr b.remote_addr) _ t3 in
    let (h5, t5) = both (same a.referer b.referer) _ t4 in
    let (h6, h7) = both (same a.method b.method) _ t5 in
    λ i. record {
      user_agent = same_eq a.user_agent b.user_agent h1 i;
      host = same_eq a.host b.host h2 i;
      server_name = same_eq a.server_name b.server_name h3 i;
      remote_addr = same_eq a.remote_addr b.remote_addr h4 i;
      referer = same_eq a.referer b.referer h5 i;
      method = same_eq a.method b.method h6 i;
      time = same_eq a.time b.time h7 i;
    }

no_end : {A : Type 0} (xs : List A) (x : A) → xs ++ (x ∷ []) ≢ []
no_end [] x h = cc
no_end (y ∷ ys) x h = cc

module _ (override : FieldAliases) (cfg : LogFormats) where
  mismatched-path :
      (p : Text) (r : Resolution)
      → (resolve_path override cfg p r).mismatched ≡ []
      → r.mismatched ≡ []
  unfolding resolve_path
  mismatched-path p r = elim (Bool-cases (is_empty r.canonical_path)) [
    | inl e ↦ rw e (λ h. h)
    | inr e ↦ elim (Bool-cases (same_aliases (resolved_for override cfg p) r.canonical)) [
      | inl f ↦ rw (e, f) (λ h. h)
      | inr f ↦ rw (e, f) (λ h. absurd (no_end r.mismatched p h))
    ]
  ]

  -- A path that was found to differ stays reported.
  mismatched-stays :
      (ps : List Text) (r : Resolution)
      → (resolve_paths override cfg ps r).mismatched ≡ []
      → r.mismatched ≡ []
  unfolding resolve_paths
  mismatched-stays [] r h = h
  mismatched-stays (p ∷ ps) r h =
      mismatched-path p r (mismatched-stays ps (resolve_path override cfg p r) h)

  -- A path that is not reported changes nothing and has the aliases that are chosen.
  unreported :
      (p : Text) (r : Resolution)
      → is_empty r.canonical_path ≡ false
      → (resolve_path override cfg p r).mismatched ≡ []
      → (resolve_path override cfg p r ≡ r) × (resolved_for override cfg p ≡ r.canonical)
  unfolding resolve_path
  unreported p r e = elim (Bool-cases (same_aliases (resolved_for override cfg p) r.canonical)) [
    | inl f ↦ rw (e, f) (λ h. (refl, same_aliases_eq (resolved_for override cfg p) r.canonical f))
    | inr f ↦ rw (e, f) (λ h. absurd (no_end r.mismatched p h))
  ]

  later-Agree :
      (ps : List Text) (r : Resolution)
      → is_empty r.canonical_path ≡ false
      → (resolve_paths override cfg ps r).mismatched ≡ []
      → All (λ p. resolved_for override cfg p ≡ (resolve_paths override cfg ps r).canonical) ps
        × ((resolve_paths override cfg ps r).canonical ≡ r.canonical)
  unfolding resolve_paths
  later-Agree [] r e h = (tt, refl)
  later-Agree (p ∷ ps) r e h =
      let (still, chosen) =
        unreported p r e (mismatched-stays ps (resolve_path override cfg p r) h) in
      let (rest, kept) =
        later-Agree ps r e
          (subst (λ r'. (resolve_paths override cfg ps r').mismatched ≡ []) still h) in
      subst
        (λ r'.
          All (λ q. resolved_for override cfg q ≡ (resolve_paths override cfg ps r').canonical)
            (p ∷ ps)
          × ((resolve_paths override cfg ps r').canonical ≡ r.canonical))
        (sym still) ((chosen ∙ sym kept, rest), kept)

  first-Agree :
      (ps : List Text)
      → All (λ p. is_empty p ≡ false) ps
      → (resolve_paths override cfg ps unresolved).mismatched ≡ []
      → All
          (λ p. resolved_for override cfg p ≡ (resolve_paths override cfg ps unresolved).canonical)
          ps
  unfolding resolve_paths resolve_path
  first-Agree [] named h = tt
  first-Agree (p ∷ ps) (n, named) h =
      let (rest, kept) = later-Agree ps (resolve_path override cfg p unresolved) n h in
      (sym kept, rest)

  -- Where no mismatch of the aliases is warned of, the aliases that the observers are given are those
  -- of every log path: what the operator set, else what the format of the path shows, else the
  -- default. This is for paths that are not empty.
  pub resolve_aliases-Agree :
      All (λ p. is_empty p ≡ false) cfg.log_paths
      → (resolve_aliases override cfg).mismatched ≡ []
      → All
          (λ p. resolved_for override cfg p ≡ (resolve_aliases override cfg).canonical)
          cfg.log_paths
  unfolding resolve_aliases
  resolve_aliases-Agree named h = first-Agree cfg.log_paths named h
