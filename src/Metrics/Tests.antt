-- ===== src/Metrics/Tests.antt =====
-- src/metrics.rs: the theorem on percentiles after a short history.
use xprotocol.Prelude.{ℕ, ◌+◌, ◌*◌, ◌/◌, ◌≡◌, true, false, List, [], ◌∷◌, arith}
use xprotocol.Metrics.{new_metrics}
use xprotocol.Metrics.Requests.{Event, started, ended, replay}
use xprotocol.Metrics.Snapshots.{snapshot}
use xprotocol.Metrics.Percentiles.{snapshot-quantile}

-- the percentage, rounded up
abbrev rank : ℕ → ℕ → ℕ
rank p total = (total * p + 99) / 100

-- four requests start; two end, after 3 ms and after 70 ms
abbrev two_of_four : List Event
two_of_four = started ∷ started ∷ ended 3 true false ∷ started ∷ ended 70 false false ∷ started ∷ []

snapshot-quantile_example :
    ((snapshot rank (replay new_metrics two_of_four)).latency_p50_ms ≡ 100)
    × ((snapshot rank (replay new_metrics two_of_four)).latency_p95_ms ≡ 60000)
    × ((snapshot rank (replay new_metrics two_of_four)).latency_p99_ms ≡ 60000)
snapshot-quantile_example = snapshot-quantile rank two_of_four (omega arith) (omega arith)
