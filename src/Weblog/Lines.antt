-- ===== src/Weblog/Lines.antt =====
-- Which lines the web-log lets through: the filters of OnLogLine in internal/topsrv/weblog/observer.go.
use topsrv.Base.{
  ℕ, ◌+◌, ◌≡◌, ◌⊎◌, Bool, true, false, not, ◌&&◌, ◌||◌, List, Option, Text, codes, same, is_empty,
  has_prefix, any, if◌then◌else◌, refl, arith, inl, inr, Bool-cases,
}
use topsrv.Nginx.Fields.{strip_query}
use topsrv.Botlog.Values.{field, index_or_skip}
use topsrv.Weblog.Formats.{Filters, proxy_host_field, has}

-- What the filters read of a parsed line. The list holds the first NExtras of the extras.
pub record Line : Type 0 where
  pub upstream_response_time : Text
  pub raw_uri : Text
  pub extras : List Text

pub record Observer : Type 0 where
  pub paths : List Text
  pub upstreams : List Text
  pub exclude_prefixes : List Text
  pub filters : Filters
  pub idx_proxy_host : Option ℕ

-- The counters of the lines that were filtered out.
pub record Filtered : Type 0 where
  pub by_path : ℕ
  pub by_upstream : ℕ
  pub by_proxy_host : ℕ
  pub by_prefix : ℕ

-- The part of NewObserver that the filters use.
pub new_observer : List Text → List Text → List Text → List Text → Filters → Observer
new_observer tail_paths upstreams exclude_prefixes extract_fields filters = record {
  paths = tail_paths;
  upstreams = upstreams;
  exclude_prefixes = exclude_prefixes;
  filters = filters;
  idx_proxy_host = index_or_skip extract_fields proxy_host_field;
}

abbrev pub reached_upstream : Text → Bool
reached_upstream v = not (is_empty v) && not (same v (codes "-"))

abbrev pub excluded : Observer → Line → Bool
excluded o line = any (λ prefix. has_prefix prefix (strip_query line.raw_uri)) o.exclude_prefixes

-- The counters, and whether the line goes on to the classifier and the sink.
unfoldable pub filter_line : Observer → Line → Text → Filtered → Filtered × Bool
filter_line o line path c =
    if not (has o.paths path)
    then (record c { by_path = c.by_path + 1 }, false)
    else if o.filters.require_upstream && not (reached_upstream line.upstream_response_time)
    then (record c { by_upstream = c.by_upstream + 1 }, false)
    else if o.filters.upstreams && not (has o.upstreams (field line.extras o.idx_proxy_host))
    then (record c { by_proxy_host = c.by_proxy_host + 1 }, false)
    else if excluded o line
    then (record c { by_prefix = c.by_prefix + 1 }, false)
    else (c, true)

-- Whether a line is wanted, in terms of the configuration alone.
abbrev pub wanted : Observer → Line → Text → Bool
wanted o line path =
    has o.paths path
    && (not o.filters.require_upstream || reached_upstream line.upstream_response_time)
    && (not o.filters.upstreams || has o.upstreams (field line.extras o.idx_proxy_host))
    && not (excluded o line)

abbrev pub total : Filtered → ℕ
total c = c.by_path + c.by_upstream + c.by_proxy_host + c.by_prefix

-- What a line does to the counters.
abbrev pub Counted : Observer → Line → Text → Filtered → Filtered × Bool → Type 0
Counted o line path c (c', passed) =
    (passed ≡ wanted o line path)
    × (((passed ≡ true) × (c' ≡ c)) ⊎ ((passed ≡ false) × (total c' ≡ total c + 1)))

-- A line goes on exactly if its log is tailed, it reached a backend or need not, its backend is
-- listed or need not be, and no excluded prefix begins its path; any other is counted once.
pub filter_line_lem :
    (o : Observer) (line : Line) (path : Text) (c : Filtered)
    → Counted o line path c (filter_line o line path c)
unfolding filter_line
filter_line_lem o line path c =
    let needs = o.filters.require_upstream && not (reached_upstream line.upstream_response_time) in
    let other = o.filters.upstreams && not (has o.upstreams (field line.extras o.idx_proxy_host)) in
    elim (Bool-cases (has o.paths path)) [
      | inr t ↦ rw (t, filter_line) (refl, inr (refl, omega arith))
      | inl t ↦ elim (Bool-cases needs) [
        | inl u ↦ rw (t, filter_line, u) (ground arith, inr (refl, omega arith))
        | inr u ↦ elim (Bool-cases other) [
          | inl v ↦ rw (t, filter_line, u, v) (ground arith, inr (refl, omega arith))
          | inr v ↦ elim (Bool-cases (excluded o line)) [
            | inl w ↦ rw (t, filter_line, u, v, w) (ground arith, inr (refl, omega arith))
            | inr w ↦ rw (t, filter_line, u, v, w) (ground arith, inl (refl, refl))
          ]
        ]
      ]
    ]
