-- ===== src/Metrics/Percentiles.antt =====
-- src/metrics.rs: the percentiles of a snapshot, beside the latencies that were measured.
use xprotocol.Prelude.{
  ℕ, suc, ◌+◌, ◌<◌, ◌≡◌, ◌∙◌, refl, sym, ap, subst, Bool, true, false, List, [], ◌∷◌, length, ◌==◌,
  arith, u64_mod, if◌then◌else◌,
}
use xprotocol.Metrics.{
  Histogram, ServiceMetrics, new_metrics, new_histogram, request_start, request_end, observe,
}
use xprotocol.Metrics.Requests.{Event, started, ended, replay, starts, ends}
use xprotocol.Metrics.Snapshots.{last_bound, walk, percentile, snapshot}
use xprotocol.Metrics.Buckets.{
  quantile, Ascending, Counts, Placed, increment_at-Counts, walk-quantile,
}

-- the latencies of a history, the newest first, before those that are given
abbrev pub latencies : List ℕ → List Event → List ℕ
latencies vs [] = vs
latencies vs (started ∷ es) = latencies vs es
latencies vs (ended l success is_timeout ∷ es) = latencies (l ∷ vs) es

abbrev pub default_bounds : List ℕ
default_bounds = 10 ∷ 50 ∷ 100 ∷ 250 ∷ 500 ∷ 1000 ∷ 2500 ∷ 5000 ∷ 10000 ∷ 30000 ∷ 60000 ∷ []

record Measured (n : ℕ) (vs : List ℕ) (m : ServiceMetrics) : Type 0 where
  total : m.requests_total ≡ n
  bounds : m.latency_histogram.bounds ≡ default_bounds
  counts : Counts m.latency_histogram.bounds m.latency_histogram.buckets 0 vs

default_bounds-Ascending : Ascending 0 default_bounds
default_bounds-Ascending = (
  omega arith,
  (
    omega arith,
    (
      omega arith,
      (
        omega arith,
        (
          omega arith,
          (
            omega arith,
            (omega arith, (omega arith, (omega arith, (omega arith, (omega arith, tt))))),
          ),
        ),
      ),
    ),
  ),
)

new_metrics-Measured : Measured 0 [] new_metrics
unfolding new_metrics new_histogram
new_metrics-Measured = record {
  total = refl;
  bounds = refl;
  counts =
      (refl, (refl, (refl, (refl, (refl, (refl, (refl, (refl, (refl, (refl, (refl, refl)))))))))));
}

observe-Counts :
    (l : ℕ) (vs : List ℕ) (h : Histogram)
    → h.bounds ≡ default_bounds
    → suc (length vs) < u64_mod
    → Counts h.bounds h.buckets 0 vs
    → Counts h.bounds (observe l h).buckets 0 (l ∷ vs)
unfolding observe
observe-Counts l vs h b few k =
    increment_at-Counts h.bounds h.buckets 0 0 l vs
      (subst (λ bs. Ascending 0 bs) (sym b) default_bounds-Ascending) few k

request_end-Measured :
    (n l : ℕ) (success is_timeout : Bool) (vs : List ℕ) (m : ServiceMetrics)
    → suc (length vs) < u64_mod
    → Measured n vs m
    → Measured n (l ∷ vs) (request_end l success is_timeout m)
unfolding request_end observe
request_end-Measured n l success true vs m few k = record {
  total = k.total;
  bounds = k.bounds;
  counts = observe-Counts l vs m.latency_histogram k.bounds few k.counts;
}
request_end-Measured n l true false vs m few k = record {
  total = k.total;
  bounds = k.bounds;
  counts = observe-Counts l vs m.latency_histogram k.bounds few k.counts;
}
request_end-Measured n l false false vs m few k = record {
  total = k.total;
  bounds = k.bounds;
  counts = observe-Counts l vs m.latency_histogram k.bounds few k.counts;
}

request_start-Measured :
    (n : ℕ) (vs : List ℕ) (m : ServiceMetrics)
    → suc n < u64_mod
    → Measured n vs m
    → Measured (suc n) vs (request_start m)
unfolding request_start
request_start-Measured n vs m few k = record {
  total = omega (arith, few, k.total);
  bounds = k.bounds;
  counts = k.counts;
}

length-latencies : (vs : List ℕ) (es : List Event) → length (latencies vs es) ≡ length vs + ends es
length-latencies vs [] = omega arith
length-latencies vs (started ∷ es) = length-latencies vs es
length-latencies vs (ended l s t ∷ es) = omega (arith, length-latencies (l ∷ vs) es)

replay-Measured :
    (n : ℕ) (vs : List ℕ) (m : ServiceMetrics) (es : List Event)
    → n + starts es < u64_mod
    → length vs + ends es < u64_mod
    → Measured n vs m
    → Measured (n + starts es) (latencies vs es) (replay m es)
unfolding replay
replay-Measured n vs m [] few_starts few_ends k = subst (λ t. Measured t vs m) (omega arith) k
replay-Measured n vs m (started ∷ es) few_starts few_ends k =
    subst (λ t. Measured t (latencies vs es) (replay (request_start m) es)) (omega arith)
      (replay-Measured (suc n) vs (request_start m) es (omega (arith, few_starts)) few_ends
        (request_start-Measured n vs m (omega (arith, few_starts)) k))
replay-Measured n vs m (ended l s t ∷ es) few_starts few_ends k =
    replay-Measured n (l ∷ vs) (request_end l s t m) es few_starts (omega (arith, few_ends))
      (request_end-Measured n l s t vs m (omega (arith, few_ends)) k)

percentile-quantile :
    (rank n : ℕ) (vs : List ℕ) (m : ServiceMetrics)
    → length vs < u64_mod
    → Measured n vs m
    → percentile rank m.requests_total m.latency_histogram
      ≡ (if n == 0 then 0 else quantile 60000 rank vs default_bounds)
unfolding percentile
percentile-quantile rank n vs m few k =
    ap (λ t. if t == 0 then 0 else walk rank h.bounds 0 0 h.buckets) k.total
    ∙ ap (λ q. if n == 0 then 0 else q)
        (walk-quantile rank 0 0 h.bounds h.bounds h.buckets vs placed few k.counts
          ∙ ap (λ bs. quantile (last_bound bs) rank vs bs) k.bounds)
  where
    h : Histogram
    h = m.latency_histogram

    placed : Placed 0 h.bounds h.bounds
    placed =
        subst (λ bs. Placed 0 bs bs) (sym k.bounds)
          (
            refl,
            (refl, (refl, (refl, (refl, (refl, (refl, (refl, (refl, (refl, (refl, refl)))))))))),
          )

-- Each percentile of a snapshot is right about the latencies that were measured, at the rank that it
-- is asked for: after any history of fewer than 2 ^ 64 starts and ends of requests on new metrics,
-- the 50th, 95th and 99th percentile are 0 where no request has started, and else the first bound
-- of the histogram such that the latencies that do not exceed it are at least as many as the rank
-- says, or 60000 where there is none. The rank is one in the requests that have started, and the
-- latencies are those of the requests that have ended.
pub snapshot-quantile :
    (rank : ℕ → ℕ → ℕ) (es : List Event)
    → starts es < u64_mod
    → ends es < u64_mod
    → let s = snapshot rank (replay new_metrics es) in
      let q : ℕ → ℕ = λ p.
        if starts es == 0
        then 0
        else quantile 60000 (rank p (starts es)) (latencies [] es) default_bounds in
      (s.latency_p50_ms ≡ q 50) × (s.latency_p95_ms ≡ q 95) × (s.latency_p99_ms ≡ q 99)
unfolding snapshot
snapshot-quantile rank es few_starts few_ends = (at 50, at 95, at 99)
  where
    m : ServiceMetrics
    m = replay new_metrics es

    known : Measured (starts es) (latencies [] es) m
    known =
        subst (λ n. Measured n (latencies [] es) m) (omega arith)
          (replay-Measured 0 [] new_metrics es (omega (arith, few_starts)) (omega (arith, few_ends))
            new_metrics-Measured)

    at :
        (p : ℕ)
        → percentile (rank p m.requests_total) m.requests_total m.latency_histogram ≡ (
            if starts es == 0
            then 0
            else quantile 60000 (rank p (starts es)) (latencies [] es) default_bounds)
    at p =
        percentile-quantile (rank p m.requests_total) (starts es) (latencies [] es) m
          (omega (arith, few_ends, length-latencies [] es)) known
        ∙ ap
            (λ t.
              if starts es == 0
              then 0
              else quantile 60000 (rank p t) (latencies [] es) default_bounds)
            known.total
