-- ===== src/Nginx/Record.antt =====
-- The metrics of log lines, internal/topsrv/nginx/log.go: recordLine and the buckets.
pub mod Histograms
mod Tests
use topsrv.Base.{
  and-true, same_eq, same_refl, ◌↔◌, Eq, ◌≡◌, text_eq, map, ltb, ◌-◌, trim_space, length,
  has_prefix, eqb, zero, is_empty, ◌&&◌, get_elem?, ◌||◌, negsuc, not, none, true, some, codes,
  cut_at, atoi, int64_of, ◌%◌, same, pos, false, [], if◌then◌else◌, ◌+◌, ℤ, List, Bool, Eq, Option,
  suc, Text, ◌∷◌, ℕ,
}
use topsrv.Nginx.Line.{ParsedLine}
use topsrv.Nginx.UriCounters.{UriCounters, add, u64_mod}

pub record StatusUri : Type 0 where
  pub status : Text
  pub uri : Text

abbrev pub same_key : StatusUri → StatusUri → Bool
same_key a b = same a.status b.status && same a.uri b.uri

pub same_key_iff : (a b : StatusUri) → (same_key a b ≡ true) ↔ (a ≡ b)
same_key_iff a b = (
  λ h.
      let (p, q) = and-true {a = same a.status b.status} {b = same a.uri b.uri} h in
      λ i. record { status = same_eq a.status b.status p i; uri = same_eq a.uri b.uri q i },
  λ e. rw e (rw (same_refl b.status) (same_refl b.uri)),
)

instance abbrev pub status_uri_eq : Eq StatusUri
status_uri_eq = record { beq = same_key; beq_iff = same_key_iff }

-- The bounds of the histogram are those of defaultHTTPBuckets, by their number.
abbrev pub bounds : ℕ
bounds = 11

abbrev pub max_cardinality_tagged : ℕ
max_cardinality_tagged = 500

abbrev pub overflow_marker : Text
overflow_marker = codes "/:other"

-- Values of type F are float64; `parse` is strconv.ParseFloat and `below v i` is v <= bounds[i].
pub record Floats (F : Type 0) : Type 0 where
  pub parse : Text → Option F
  pub below : F → ℕ → Bool
  pub zero_sum : F
  pub plus : F → F → F

pub record Histogram (F : Type 0) : Type 0 where
  pub buckets : List ℕ
  pub sum : F
  pub count : ℕ

pub record Tagged : Type 0 where
  pub status : Text
  pub extra : List Text

abbrev pub texts_eq : List Text → List Text → Bool
texts_eq [] [] = true
texts_eq [] (t ∷ ts) = false
texts_eq (s ∷ ss) [] = false
texts_eq (s ∷ ss) (t ∷ ts) = same s t && texts_eq ss ts

abbrev pub same_tag : Tagged → Tagged → Bool
same_tag a b = same a.status b.status && texts_eq a.extra b.extra

-- m[key]++ on a map of uint64
unfoldable pub count_one : {K : Type 0} → (K → K → Bool) → K → List (K × ℕ) → List (K × ℕ)
count_one eq key [] = (key, 1) ∷ []
count_one eq key ((k, n) ∷ m) =
    let rest = count_one eq key m in if eq k key then (k, (n + 1) % u64_mod) ∷ m else (k, n) ∷ rest

abbrev pub has_key : {K : Type 0} → (K → K → Bool) → K → List (K × ℕ) → Bool
has_key eq key [] = false
has_key eq key ((k, n) ∷ m) = eq k key || has_key eq key m

-- The position of each label among the extracted fields; none where it is missing.
pub record Metrics (F : Type 0) : Type 0 where
  pub label_idx : List (Option ℕ)
  pub requests : Histogram F
  pub upstream : Histogram F
  pub status_counts : List (Text × ℕ)
  pub tagged_counts : List (Tagged × ℕ)
  pub cache_counts : List (Text × ℕ)
  pub uri5xx : UriCounters StatusUri
  pub uri4xx : UriCounters StatusUri
  pub bytes_by_uri : UriCounters Text
  pub bytes_total : ℤ

abbrev pub or_empty : Option Text → Text
or_empty none = []
or_empty (some v) = if same v (codes "-") then [] else v

abbrev pub label_value : ParsedLine → Option ℕ → Text
label_value p none = []
label_value p (some i) = or_empty (get_elem? p.extras i)

unfoldable pub count_tagged : Tagged → List (Tagged × ℕ) → List (Tagged × ℕ)
count_tagged key m =
    if has_key same_tag key m || ltb (length m) max_cardinality_tagged
    then count_one same_tag key m
    else m

abbrev pub increment : ℕ → List ℕ → List ℕ
increment i [] = []
increment zero (n ∷ ns) = ((n + 1) % u64_mod) ∷ ns
increment (suc i) (n ∷ ns) = n ∷ increment i ns

-- uint64 of an int64
abbrev to_u64 : ℤ → ℕ
to_u64 (pos n) = n
to_u64 (negsuc n) = u64_mod - suc n

-- a + b on int64
abbrev add_int64 : ℤ → ℤ → ℤ
add_int64 a b = int64_of (to_u64 a + to_u64 b)

-- The first of several upstream times.
abbrev pub first_time : Text → Text
first_time s = elim (cut_at b',' s) [
  | none ↦ s
  | some (first, rest) ↦ if is_empty first then s else trim_space first
]

module _ {F : Type 0} (fl : Floats F) where
  -- The loop of bucketIndex from bound i on.
  unfoldable pub bucket_from : ℕ → ℕ → F → ℕ
  bucket_from i zero v = i
  bucket_from i (suc n) v = let rest = bucket_from (i + 1) n v in if fl.below v i then i else rest

  abbrev pub bucket_index : F → ℕ
  bucket_index v = bucket_from 0 bounds v

  abbrev pub observe : F → Histogram F → Histogram F
  observe v h = record {
    buckets = increment (bucket_index v) h.buckets;
    sum = fl.plus h.sum v;
    count = (h.count + 1) % u64_mod;
  }

  abbrev pub observed : Option F → Histogram F → Histogram F
  observed none h = h
  observed (some v) h = observe v h

  abbrev pub no_observation : Histogram F
  no_observation = record {
    buckets = 0 ∷ 0 ∷ 0 ∷ 0 ∷ 0 ∷ 0 ∷ 0 ∷ 0 ∷ 0 ∷ 0 ∷ 0 ∷ 0 ∷ [];
    sum = fl.zero_sum;
    count = 0;
  }

  abbrev count_bytes : ParsedLine → ℕ → Metrics F → Metrics F
  count_bytes p now m =
      let (v, ok) = atoi p.body_bytes_sent in
      if not ok then m else record m {
        bytes_total = add_int64 m.bytes_total v;
        bytes_by_uri =
            if is_empty p.uri
            then m.bytes_by_uri
            else add m.bytes_by_uri p.uri overflow_marker (to_u64 v) now;
      }

  abbrev status_uri : Text → Text → StatusUri
  status_uri status uri = record { status = status; uri = uri }

  abbrev count_errors : Text → ParsedLine → ℕ → UriCounters StatusUri → UriCounters StatusUri
  count_errors class p now u =
      if has_prefix class p.status && not (is_empty p.uri)
      then add u (status_uri p.status p.uri) (status_uri p.status overflow_marker) 1 now
      else u

  abbrev count_status : ParsedLine → Metrics F → Metrics F
  count_status p m =
      if eqb (length m.label_idx) 0
      then record m { status_counts = count_one same p.status m.status_counts }
      else record m {
        tagged_counts =
            count_tagged (record { status = p.status; extra = map (label_value p) m.label_idx })
              m.tagged_counts;
      }

  abbrev record_status : ParsedLine → ℕ → Metrics F → Metrics F
  record_status p now m =
      if is_empty p.status
      then m
      else (let m' = count_status p m in
          count_bytes p now (record m' {
            uri5xx = count_errors (codes "5") p now m'.uri5xx;
            uri4xx = count_errors (codes "4") p now m'.uri4xx;
          }))

  abbrev count_cache : Text → List (Text × ℕ) → List (Text × ℕ)
  count_cache s m = if is_empty s || same s (codes "-") then m else count_one same s m

  unfoldable pub record_line : ParsedLine → ℕ → Metrics F → Metrics F
  unfolding count_tagged count_one
  record_line p now m =
      let m' = record_status p now m in
      record m' {
        requests = observed (fl.parse p.request_time) m'.requests;
        upstream =
            if is_empty p.upstream_response_time
            then m'.upstream
            else observed (fl.parse (first_time p.upstream_response_time)) m'.upstream;
        cache_counts = count_cache p.upstream_cache_status m'.cache_counts;
      }

-- cumulativeBuckets: the sums, one for each bound.
unfoldable pub cumulative : ℕ → ℕ → List ℕ → List ℕ
cumulative zero cum ranges = []
cumulative (suc n) cum [] = []
cumulative (suc n) cum (r ∷ ranges) =
    (cum + r) % u64_mod ∷ cumulative n ((cum + r) % u64_mod) ranges

-- The lines of a log, each with the time at which it is read.
unfoldable pub record_lines :
    {F : Type 0} → Floats F → List (ParsedLine × ℕ) → Metrics F → Metrics F
unfolding record_line
record_lines fl [] m = m
record_lines fl ((p, now) ∷ ps) m = record_lines fl ps (record_line fl p now m)
