-- ===== src/Metrics.antt =====
-- src/metrics.rs: the counters of services and connections. Each counter is an atomic word of 64
-- bits; the compare-and-exchange loops that raise a maximum are written as what they leave.
pub mod Requests
pub mod Connections
pub mod Snapshots
pub mod Alerts
pub mod Buckets
pub mod Percentiles
mod Tests
use xprotocol.Prelude.{
  ℕ, zero, suc, ◌+◌, ◌/◌, String, Bool, true, false, Option, none, some, List, [], ◌∷◌, ltb, leb,
  ◌==◌, fetch_add, fetch_sub, if◌then◌else◌,
}
use xprotocol.Prelude.Dict.{Dict, get, insert}

pub record Histogram : Type 0 where
  pub buckets : List ℕ
  pub bounds : List ℕ

zeros : List ℕ → List ℕ
zeros [] = 0 ∷ []
zeros (b ∷ bs) = 0 ∷ zeros bs

unfoldable pub new_histogram : List ℕ → Histogram
unfolding zeros
new_histogram bounds = record { buckets = zeros bounds; bounds = bounds }

-- `binary_search` on ascending bounds: the place of the value, or else the place to insert it at
unfoldable pub bucket_of : ℕ → List ℕ → ℕ
bucket_of value [] = 0
bucket_of value (b ∷ bs) = let later = bucket_of value bs in if ltb b value then suc later else 0

unfoldable pub increment_at : ℕ → List ℕ → List ℕ
increment_at i [] = []
increment_at zero (c ∷ cs) = fetch_add c 1 ∷ cs
increment_at (suc i) (c ∷ cs) = c ∷ increment_at i cs

unfoldable pub observe : ℕ → Histogram → Histogram
unfolding bucket_of increment_at
observe value h = record h { buckets = increment_at (bucket_of value h.bounds) h.buckets }

pub record ServiceMetrics : Type 0 where
  pub requests_total : ℕ
  pub requests_success : ℕ
  pub requests_failure : ℕ
  pub requests_timeout : ℕ
  pub latency_sum_ms : ℕ
  pub latency_count : ℕ
  pub latency_max_ms : ℕ
  pub active_requests : ℕ
  pub latency_histogram : Histogram

unfoldable pub new_metrics : ServiceMetrics
new_metrics = record {
  requests_total = 0;
  requests_success = 0;
  requests_failure = 0;
  requests_timeout = 0;
  latency_sum_ms = 0;
  latency_count = 0;
  latency_max_ms = 0;
  active_requests = 0;
  latency_histogram =
      new_histogram (10 ∷ 50 ∷ 100 ∷ 250 ∷ 500 ∷ 1000 ∷ 2500 ∷ 5000 ∷ 10000 ∷ 30000 ∷ 60000 ∷ []);
}

unfoldable pub request_start : ServiceMetrics → ServiceMetrics
request_start m = record m {
  requests_total = fetch_add m.requests_total 1;
  active_requests = fetch_add m.active_requests 1;
}

-- the loop that raises the maximum to the value
raise : ℕ → ℕ → ℕ
raise value current = if leb value current then current else value

count_outcome : Bool → Bool → ServiceMetrics → ServiceMetrics
count_outcome success is_timeout m =
    if is_timeout
    then record m { requests_timeout = fetch_add m.requests_timeout 1 }
    else if success
    then record m { requests_success = fetch_add m.requests_success 1 }
    else record m { requests_failure = fetch_add m.requests_failure 1 }

unfoldable pub request_end : ℕ → Bool → Bool → ServiceMetrics → ServiceMetrics
unfolding raise count_outcome
request_end latency_ms success is_timeout m = count_outcome success is_timeout (record m {
  active_requests = fetch_sub m.active_requests 1;
  latency_count = fetch_add m.latency_count 1;
  latency_sum_ms = fetch_add m.latency_sum_ms latency_ms;
  latency_max_ms = raise latency_ms m.latency_max_ms;
  latency_histogram = observe latency_ms m.latency_histogram;
})

unfoldable pub latency_avg_ms : ServiceMetrics → ℕ
latency_avg_ms m = if ltb 0 m.latency_count then m.latency_sum_ms / m.latency_count else 0

pub record ConnectionTracker : Type 0 where
  pub total_connections : ℕ
  pub active_connections : ℕ
  pub peak_connections : ℕ
  pub closed_connections : ℕ
  pub connection_errors : ℕ

unfoldable pub new_tracker : ConnectionTracker
new_tracker = record {
  total_connections = 0;
  active_connections = 0;
  peak_connections = 0;
  closed_connections = 0;
  connection_errors = 0;
}

unfoldable pub connection_opened : ConnectionTracker → ConnectionTracker
unfolding raise
connection_opened t = record t {
  total_connections = fetch_add t.total_connections 1;
  active_connections = fetch_add t.active_connections 1;
  peak_connections = raise (fetch_add t.active_connections 1) t.peak_connections;
}

unfoldable pub connection_closed : ConnectionTracker → ConnectionTracker
connection_closed t = record t {
  active_connections = fetch_sub t.active_connections 1;
  closed_connections = fetch_add t.closed_connections 1;
}

unfoldable pub connection_error : ConnectionTracker → ConnectionTracker
connection_error t = record t { connection_errors = fetch_add t.connection_errors 1 }

pub record MetricsCollector : Type 0 where
  pub services : Dict ServiceMetrics
  pub connections : ConnectionTracker

found_or_new : String → Option ServiceMetrics → MetricsCollector → ServiceMetrics × MetricsCollector
found_or_new name (some m) c = (m, c)
found_or_new name none c = (new_metrics, record c { services = insert name new_metrics c.services })

-- The metrics of a service, and the collector that has them; both looks at the map come to the
-- same where no other task adds the name between them.
unfoldable pub get_or_create_service : String → MetricsCollector → ServiceMetrics × MetricsCollector
unfolding found_or_new
get_or_create_service name c = found_or_new name (get name c.services) c
