-- ===== src/Nginx/Record/Histograms.antt =====
-- The histograms that are handed to Prometheus, and the bound on the labels.
use topsrv.Base.{[], length, ◌∷◌, ◌+◌, suc, ◌≤◌, ◌≡◌, List, ℕ}
use topsrv.Nginx.Record.{Metrics, Floats, Histogram, cumulative, bounds}

abbrev pub sum_of : List ℕ → ℕ
sum_of [] = 0
sum_of (n ∷ ns) = n + sum_of ns

-- Each value is in one bucket, and at most n values were observed.
pub record IsHistogram {F : Type 0} (n : ℕ) (h : Histogram F) : Type 0 where
  pub total : sum_of h.buckets ≡ h.count
  pub width : length h.buckets ≡ suc bounds
  pub few : h.count ≤ n

-- A list that goes up from lo and stays within hi.
abbrev pub Ascending : ℕ → ℕ → List ℕ → Type 0
Ascending lo hi [] = lo ≤ hi
Ascending lo hi (n ∷ ns) = (lo ≤ n) × Ascending n hi ns

-- The numbers of labels and of requests stay in their bounds.
pub record Sound {F : Type 0} (n : ℕ) (m : Metrics F) : Type 0 where
  pub requests : IsHistogram n m.requests
  pub upstream : IsHistogram n m.upstream
  pub tagged : length m.tagged_counts ≤ 500

module _ {F : Type 0} (fl : Floats F) where
  -- The cumulative buckets of both histograms go up and stay within the count, and the labelled
  -- counters have at most 500 keys.
  abbrev pub Exported : Metrics F → Type 0
  Exported m =
      Ascending 0 m.requests.count (cumulative bounds 0 m.requests.buckets)
      × Ascending 0 m.upstream.count (cumulative bounds 0 m.upstream.buckets)
      × (length m.tagged_counts ≤ 500)
