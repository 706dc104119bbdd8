-- ===== src/Metrics/Snapshots.antt =====
-- src/metrics.rs: percentiles, snapshots and alerts. The rank of a percentile and the comparison of an
-- error rate are f64 arithmetic, and parameters.
use xprotocol.Prelude.{
  ℕ, zero, suc, ◌+◌, ◌%◌, ◌<◌, ◌≡◌, refl, String, Bool, false, List, [], ◌∷◌, ◌++◌, leb, ltb,
  leb-false, ◌==◌, u64_mod, str_append, str_eq, arith, if◌then◌else◌,
}
use xprotocol.Prelude.Dict.{Dict}
use xprotocol.Metrics.{Histogram, ServiceMetrics, MetricsCollector, latency_avg_ms}

-- `*bounds.last().unwrap_or(&100)`
abbrev pub last_bound : List ℕ → ℕ
last_bound [] = 100
last_bound (b ∷ []) = b
last_bound (b ∷ c ∷ bs) = last_bound (c ∷ bs)

-- `bounds[i]` where there is one, else the last bound
abbrev pub bound_at : ℕ → List ℕ → List ℕ → ℕ
bound_at i all [] = last_bound all
bound_at zero all (b ∷ bs) = b
bound_at (suc i) all (b ∷ bs) = bound_at i all bs

-- the loop over the buckets, from bucket `i` on
unfoldable pub walk : ℕ → List ℕ → ℕ → ℕ → List ℕ → ℕ
walk target bounds i cumulative [] = last_bound bounds
walk target bounds i cumulative (c ∷ cs) =
    let sum = (cumulative + c) % u64_mod in
    let later = walk target bounds (suc i) sum cs in
    if leb target sum then bound_at i bounds bounds else later

-- `target` is the percentage of the total, rounded up
unfoldable pub percentile : ℕ → ℕ → Histogram → ℕ
unfolding walk
percentile target total h = if total == 0 then 0 else walk target h.bounds 0 0 h.buckets

pub record RequestMetrics : Type 0 where
  pub total : ℕ
  pub success : ℕ
  pub failure : ℕ
  pub timeout : ℕ
  pub latency_avg : ℕ
  pub latency_p50_ms : ℕ
  pub latency_p95_ms : ℕ
  pub latency_p99_ms : ℕ
  pub latency_max_ms : ℕ

-- `rank p total` is `(total as f64 * p / 100.0).ceil() as u64`
unfoldable pub snapshot : (ℕ → ℕ → ℕ) → ServiceMetrics → RequestMetrics
unfolding percentile
snapshot rank m =
    let total = m.requests_total in
    let at : ℕ → ℕ = λ p. percentile (rank p total) total m.latency_histogram in
    record {
      total = total;
      success = m.requests_success;
      failure = m.requests_failure;
      timeout = m.requests_timeout;
      latency_avg = latency_avg_ms m;
      latency_p50_ms = at 50;
      latency_p95_ms = at 95;
      latency_p99_ms = at 99;
      latency_max_ms = m.latency_max_ms;
    }

abbrev pub snapshot_each : (ℕ → ℕ → ℕ) → Dict ServiceMetrics → Dict RequestMetrics
snapshot_each rank [] = []
snapshot_each rank ((name, m) ∷ ms) = (name, snapshot rank m) ∷ snapshot_each rank ms

abbrev pub snapshot_all : (ℕ → ℕ → ℕ) → MetricsCollector → Dict RequestMetrics
snapshot_all rank c = snapshot_each rank c.services

-- an error rate is an f64
pub data AlertCondition (F64 : Type 0) : Type 0 where
  latency_p99_above : ℕ → AlertCondition F64
  error_rate_above : F64 → AlertCondition F64
  active_connections_above : ℕ → AlertCondition F64
  circuit_breaker_open : AlertCondition F64

-- times in milliseconds
pub record AlertRule (F64 : Type 0) : Type 0 where
  pub name : String
  pub metric : String
  pub condition : AlertCondition F64
  pub cooldown : ℕ

pub data AlertSeverity : Type 0 where
  warning critical : AlertSeverity

pub record Alert : Type 0 where
  pub rule_name : String
  pub message : String
  pub severity : AlertSeverity
  pub timestamp : ℕ

module _ {F64 : Type 0} (rate_above : ℕ → ℕ → F64 → Bool) where
  -- `rate_above failure total threshold` compares their quotient with the threshold
  unfoldable pub should_alert : AlertCondition F64 → RequestMetrics → Bool
  should_alert (latency_p99_above threshold) s = ltb threshold s.latency_p99_ms
  should_alert (error_rate_above threshold) s =
      if ltb 0 s.total then rate_above s.failure s.total threshold else false
  should_alert (active_connections_above threshold) s = false
  should_alert circuit_breaker_open s = false

  abbrev pub alert_of : ℕ → String → AlertRule F64 → Alert
  alert_of now service_name rule = record {
    rule_name = rule.name;
    message = str_append service_name ": threshold exceeded";
    severity = warning;
    timestamp = now;
  }

  -- the alerts of one service, in the order of the rules
  unfoldable pub check_rules : ℕ → String → RequestMetrics → List (AlertRule F64) → List Alert
  unfolding should_alert
  check_rules now service_name s [] = []
  check_rules now service_name s (rule ∷ rules) =
      let later = check_rules now service_name s rules in
      if str_eq rule.metric service_name
      then if should_alert rule.condition s then alert_of now service_name rule ∷ later else later
      else later

  -- what each callback is given
  unfoldable pub check_snapshots : ℕ → List (AlertRule F64) → Dict RequestMetrics → List Alert
  unfolding check_rules
  check_snapshots now rules [] = []
  check_snapshots now rules ((service_name, s) ∷ rest) =
      check_rules now service_name s rules ++ check_snapshots now rules rest

  unfoldable pub check : (ℕ → ℕ → ℕ) → ℕ → List (AlertRule F64) → MetricsCollector → List Alert
  unfolding check_snapshots
  check rank now rules c = check_snapshots now rules (snapshot_all rank c)

abbrev pub sum : List ℕ → ℕ
sum [] = 0
sum (c ∷ cs) = c + sum cs

walk-last_bound :
    (target i cumulative : ℕ) (bounds cs : List ℕ)
    → cumulative + sum cs < target
    → target < u64_mod
    → walk target bounds i cumulative cs ≡ last_bound bounds
unfolding walk
walk-last_bound target i cumulative bounds [] h k = refl
walk-last_bound target i cumulative bounds (c ∷ cs) h k =
    let small : (cumulative + c) % u64_mod ≡ cumulative + c = omega (arith, h, k) in
    rw (small, leb-false target (cumulative + c) (omega (arith, h)))
      (walk-last_bound target (suc i) (cumulative + c) bounds cs (omega (arith, h)) k)

-- A percentile of a positive total is the last bound of the histogram wherever its rank, which fits
-- in 64 bits, is more than the values that the histogram has counted, however small they are.
-- (`snapshot` takes the rank in the requests that started, and the histogram counts those that
-- ended.)
pub percentile-last_bound :
    (target total : ℕ) (h : Histogram)
    → 0 < total
    → sum h.buckets < target
    → target < u64_mod
    → percentile target total h ≡ last_bound h.bounds
unfolding percentile
percentile-last_bound target total h positive few fits =
    let e : (total == 0) ≡ false = ground arith in
    rw e (walk-last_bound target 0 0 h.bounds h.buckets (omega (arith, few)) fits)
