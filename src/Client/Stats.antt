-- ===== src/Client/Stats.antt =====
-- src/client.rs: `ConnectionStats`. The clock gives seconds since the epoch.
use xprotocol.Prelude.{
  ℕ, ◌+◌, ◌%◌, ◌<◌, ◌≡◌, Bool, true, false, List, [], ◌∷◌, arith, ◌==◌, u64_mod, fetch_add,
  if◌then◌else◌,
}

pub record ConnectionStats : Type 0 where
  pub total_requests : ℕ
  pub successful_requests : ℕ
  pub failed_requests : ℕ
  pub reconnection_attempts : ℕ
  pub reconnection_successes : ℕ
  pub last_connected_at : ℕ
  pub last_request_at : ℕ

abbrev pub new_stats : ConnectionStats
new_stats = record {
  total_requests = 0;
  successful_requests = 0;
  failed_requests = 0;
  reconnection_attempts = 0;
  reconnection_successes = 0;
  last_connected_at = 0;
  last_request_at = 0;
}

unfoldable pub record_request : ℕ → Bool → ConnectionStats → ConnectionStats
record_request seconds success s = record s {
  total_requests = fetch_add s.total_requests 1;
  successful_requests =
      if success then fetch_add s.successful_requests 1 else s.successful_requests;
  failed_requests = if success then s.failed_requests else fetch_add s.failed_requests 1;
  last_request_at = seconds;
}

unfoldable pub record_reconnect : ℕ → Bool → ConnectionStats → ConnectionStats
record_reconnect seconds success s = record s {
  reconnection_attempts = fetch_add s.reconnection_attempts 1;
  reconnection_successes =
      if success then fetch_add s.reconnection_successes 1 else s.reconnection_successes;
  last_connected_at = if success then seconds else s.last_connected_at;
}

-- `ratio` is the f64 quotient of two counts, a parameter; a count is 0.0 exactly where it is 0
unfoldable pub success_rate : {F64 : Type 0} → F64 → (ℕ → ℕ → F64) → ConnectionStats → F64
success_rate one ratio s =
    if s.total_requests == 0 then one else ratio s.successful_requests s.total_requests

unfoldable pub reconnection_rate : {F64 : Type 0} → F64 → (ℕ → ℕ → F64) → ConnectionStats → F64
reconnection_rate one ratio s =
    if s.reconnection_attempts == 0
    then one
    else ratio s.reconnection_successes s.reconnection_attempts

-- what a client records, in order
pub data Recorded : Type 0 where
  request reconnect : ℕ → Bool → Recorded

unfoldable pub replay : ConnectionStats → List Recorded → ConnectionStats
replay s [] = s
replay s (request t b ∷ rs) = replay (record_request t b s) rs
replay s (reconnect t b ∷ rs) = replay (record_reconnect t b s) rs

-- the records of a kind, and those of a kind that went well
abbrev pub requests : List Recorded → ℕ
requests [] = 0
requests (request t b ∷ rs) = 1 + requests rs
requests (reconnect t b ∷ rs) = requests rs

abbrev pub successes : List Recorded → ℕ
successes [] = 0
successes (request t b ∷ rs) = (if b then 1 else 0) + successes rs
successes (reconnect t b ∷ rs) = successes rs

abbrev pub attempts : List Recorded → ℕ
attempts [] = 0
attempts (request t b ∷ rs) = attempts rs
attempts (reconnect t b ∷ rs) = 1 + attempts rs

pub record Tallied (s : ConnectionStats) (rs : List Recorded) (t : ConnectionStats) : Type 0 where
  pub total : t.total_requests ≡ (s.total_requests + requests rs) % u64_mod
  pub successful : t.successful_requests ≡ (s.successful_requests + successes rs) % u64_mod
  pub split :
      (t.successful_requests + t.failed_requests) % u64_mod
      ≡ (s.successful_requests + s.failed_requests + requests rs) % u64_mod
  pub tried : t.reconnection_attempts ≡ (s.reconnection_attempts + attempts rs) % u64_mod

-- Counters in range stay tallies: after any sequence of records the totals have grown by the
-- number of records, and successes and failures together by the number of requests, modulo 2 ^ 64.
pub replay-Tallied :
    (s : ConnectionStats) (rs : List Recorded)
    → s.total_requests < u64_mod
    → s.successful_requests < u64_mod
    → s.reconnection_attempts < u64_mod
    → Tallied s rs (replay s rs)
unfolding replay record_request record_reconnect
replay-Tallied s [] a b c = omega arith
replay-Tallied s (request t true ∷ rs) a b c =
    let v = replay-Tallied (record_request t true s) rs (omega arith) (omega arith) c in
    omega (arith, v.total, v.successful, v.split, v.tried)
replay-Tallied s (request t false ∷ rs) a b c =
    let v = replay-Tallied (record_request t false s) rs (omega arith) b c in
    omega (arith, v.total, v.successful, v.split, v.tried)
replay-Tallied s (reconnect t o ∷ rs) a b c =
    let v = replay-Tallied (record_reconnect t o s) rs a b (omega arith) in
    omega (arith, v.total, v.successful, v.split, v.tried)
