-- ===== src/Utils/Counters.antt =====
-- src/utils.rs: the counters of `Metrics`, `CancellationToken`, and what `HealthChecker` says of an
-- address.
use xprotocol.Prelude.{
  ℕ, zero, suc, ◌<◌, ◌≡◌, refl, Option, none, some, arith, ◌/◌, Bool, true, false, fetch_add,
  fetch_sub, ltb, if◌then◌else◌,
}
use xprotocol.Error.{IoResult}

pub record Metrics : Type 0 where
  pub requests_total : ℕ
  pub requests_success : ℕ
  pub requests_failure : ℕ
  pub connections_active : ℕ
  pub bytes_sent : ℕ
  pub bytes_received : ℕ
  pub latency_sum : ℕ
  pub latency_count : ℕ

abbrev pub record_request : Metrics → Metrics
record_request m = record m { requests_total = fetch_add m.requests_total 1 }

abbrev pub record_success : Metrics → Metrics
record_success m = record m { requests_success = fetch_add m.requests_success 1 }

abbrev pub record_failure : Metrics → Metrics
record_failure m = record m { requests_failure = fetch_add m.requests_failure 1 }

abbrev pub record_latency : ℕ → Metrics → Metrics
record_latency ms m = record m {
  latency_sum = fetch_add m.latency_sum ms;
  latency_count = fetch_add m.latency_count 1;
}

abbrev pub inc_connections : Metrics → Metrics
inc_connections m = record m { connections_active = fetch_add m.connections_active 1 }

abbrev pub dec_connections : Metrics → Metrics
dec_connections m = record m { connections_active = fetch_sub m.connections_active 1 }

abbrev pub add_bytes_sent : ℕ → Metrics → Metrics
add_bytes_sent bytes m = record m { bytes_sent = fetch_add m.bytes_sent bytes }

abbrev pub add_bytes_received : ℕ → Metrics → Metrics
add_bytes_received bytes m = record m { bytes_received = fetch_add m.bytes_received bytes }

-- of `snapshot`
abbrev pub avg_latency_ms : Metrics → ℕ
avg_latency_ms m = if ltb 0 m.latency_count then m.latency_sum / m.latency_count else 0

-- the f64 arithmetic of the rate, a parameter: `(success as f64 / total as f64) * 100.0`
pub record MetricsSnapshot (F64 : Type 0) : Type 0 where
  pub requests_total : ℕ
  pub requests_success : ℕ
  pub requests_failure : ℕ
  pub connections_active : ℕ
  pub bytes_sent : ℕ
  pub bytes_received : ℕ
  pub avg_latency : ℕ
  pub success_rate : F64

unfoldable pub snapshot : {F64 : Type 0} → F64 → (ℕ → ℕ → F64) → Metrics → MetricsSnapshot F64
snapshot zero_rate percentage m = record {
  requests_total = m.requests_total;
  requests_success = m.requests_success;
  requests_failure = m.requests_failure;
  connections_active = m.connections_active;
  bytes_sent = m.bytes_sent;
  bytes_received = m.bytes_received;
  avg_latency = avg_latency_ms m;
  success_rate =
      if ltb 0 m.requests_total then percentage m.requests_success m.requests_total else zero_rate;
}

-- A token is its flag; `fork` gives another handle of the same flag.
pub record CancellationToken : Type 0 where
  pub flag : Bool

abbrev pub new_token : CancellationToken
new_token = record { flag = false }

abbrev pub cancel : CancellationToken → CancellationToken
cancel t = record { flag = true }

abbrev pub is_cancelled : CancellationToken → Bool
is_cancelled t = t.flag

-- another handle of the same flag
abbrev pub fork : CancellationToken → CancellationToken
fork t = t

count_sleep : Option ℕ → Option ℕ
count_sleep none = none
count_sleep (some k) = some (suc k)

-- `cancelled`, over at most so many polls, where the i-th reads `polls i`: how often it slept, and
-- `none` where the polls are used up
unfoldable pub cancelled : ℕ → (ℕ → Bool) → Option ℕ
unfolding count_sleep
cancelled zero polls = none
cancelled (suc n) polls =
    let rest = count_sleep (cancelled n (λ i. polls (suc i))) in if polls 0 then some 0 else rest

-- `cancelled` returns at the first poll that reads the flag as set, and not before.
pub cancelled_first :
    (k n : ℕ) (polls : ℕ → Bool)
    → k < n
    → ((i : ℕ) → i < k → polls i ≡ false)
    → polls k ≡ true
    → cancelled n polls ≡ some k
unfolding cancelled
cancelled_first k zero polls h before now = absurd (omega arith)
cancelled_first zero (suc n) polls h before now = rw now refl
cancelled_first (suc k) (suc n) polls h before now = rw (before 0 (omega arith)) (
    rw
      (cancelled_first k n (λ i. polls (suc i)) (omega (arith, h))
        (λ i l. before (suc i) (omega (arith, l))) now)
      refl)

-- milliseconds
pub record HealthChecker : Type 0 where
  pub interval : ℕ
  pub timeout : ℕ

abbrev pub new_checker : HealthChecker
new_checker = record { interval = 30000; timeout = 5000 }

abbrev pub with_interval : ℕ → HealthChecker → HealthChecker
with_interval interval c = record c { interval = interval }

abbrev pub with_timeout : ℕ → HealthChecker → HealthChecker
with_timeout timeout c = record c { timeout = timeout }

-- what comes of `timeout(.., TcpStream::connect(..))`: the dial's result, or that time ran out
pub data Dial : Type 0 where
  dialled : IoResult (Unit {0}) → Dial
  elapsed : Dial

abbrev pub check : Dial → Bool
check (dialled r) = true
check elapsed = false
