-- ===== src/Metrics/Requests.antt =====
-- src/metrics.rs: what `ServiceMetrics` says after a history of requests.
use xprotocol.Prelude.{
  ℕ, ◌+◌, ◌%◌, ◌≡◌, refl, Bool, true, false, List, [], ◌∷◌, leb, arith, u64_mod, if◌then◌else◌,
}
use xprotocol.Metrics.{ServiceMetrics, request_start, request_end}

pub data Event : Type 0 where
  started : Event
  ended : ℕ → Bool → Bool → Event

unfoldable pub replay : ServiceMetrics → List Event → ServiceMetrics
replay m [] = m
replay m (started ∷ es) = replay (request_start m) es
replay m (ended latency_ms success is_timeout ∷ es) =
    replay (request_end latency_ms success is_timeout m) es

abbrev pub starts : List Event → ℕ
starts [] = 0
starts (started ∷ es) = 1 + starts es
starts (ended l s t ∷ es) = starts es

abbrev pub ends : List Event → ℕ
ends [] = 0
ends (started ∷ es) = ends es
ends (ended l s t ∷ es) = 1 + ends es

abbrev pub slowest : ℕ → List Event → ℕ
slowest m [] = m
slowest m (started ∷ es) = slowest m es
slowest m (ended l s t ∷ es) = slowest (if leb l m then m else l) es

abbrev pub finished : ServiceMetrics → ℕ
finished m = m.requests_success + m.requests_failure + m.requests_timeout

pub record Tallied (m : ServiceMetrics) (es : List Event) (n : ServiceMetrics) : Type 0 where
  pub total : n.requests_total % u64_mod ≡ (m.requests_total + starts es) % u64_mod
  pub outcomes : finished n % u64_mod ≡ (finished m + ends es) % u64_mod
  pub measured : n.latency_count % u64_mod ≡ (m.latency_count + ends es) % u64_mod
  pub active : (n.active_requests + ends es) % u64_mod ≡ (m.active_requests + starts es) % u64_mod
  pub largest : n.latency_max_ms ≡ slowest m.latency_max_ms es

-- Whatever requests start and end, in any order: modulo 2 ^ 64 the total has grown by the starts,
-- the successes, failures and timeouts together by the ends, the active count by their difference;
-- and the maximum is the largest latency.
pub replay-Tallied_requests : (m : ServiceMetrics) (es : List Event) → Tallied m es (replay m es)
unfolding replay request_start request_end
replay-Tallied_requests m [] = record {
  total = omega arith;
  outcomes = omega arith;
  measured = omega arith;
  active = omega arith;
  largest = refl;
}
replay-Tallied_requests m (started ∷ es) =
    let v = replay-Tallied_requests (request_start m) es in
    record {
      total = omega (arith, v.total);
      outcomes = v.outcomes;
      measured = v.measured;
      active = omega (arith, v.active);
      largest = v.largest;
    }
replay-Tallied_requests m (ended l s true ∷ es) =
    let v = replay-Tallied_requests (request_end l s true m) es in
    record {
      total = v.total;
      outcomes = omega (arith, v.outcomes);
      measured = omega (arith, v.measured);
      active = omega (arith, v.active);
      largest = v.largest;
    }
replay-Tallied_requests m (ended l true false ∷ es) =
    let v = replay-Tallied_requests (request_end l true false m) es in
    record {
      total = v.total;
      outcomes = omega (arith, v.outcomes);
      measured = omega (arith, v.measured);
      active = omega (arith, v.active);
      largest = v.largest;
    }
replay-Tallied_requests m (ended l false false ∷ es) =
    let v = replay-Tallied_requests (request_end l false false m) es in
    record {
      total = v.total;
      outcomes = omega (arith, v.outcomes);
      measured = omega (arith, v.measured);
      active = omega (arith, v.active);
      largest = v.largest;
    }
