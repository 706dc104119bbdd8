-- ===== src/Pool/Production/Shutdown.antt =====
-- src/pool.rs: what `ProductionPool::close` ends, and what it does not.
use xprotocol.Prelude.{
  ℕ, suc, ◌+◌, ◌≤◌, ◌≡◌, refl, ap, true, ◌∷◌, ◌++◌, length, length-append, arith,
}
use xprotocol.Pool.Production.{
  answered, failed, timed_out, enter, acquire, take_client, give_back, finish, shut, clear_pool,
  circuit_breaker_state,
}
use xprotocol.Pool.Production.System.{
  System, Step, enters, turned_away, acquires, rejects, takes, gives, finishes, shuts, clears,
  polls,
}

pub data Steps (s : System) : System → Type 0 where
  done : Steps s s
  more : {t u : System} → Steps s t → Step t u → Steps s u

pub record IsClosed (s : System) : Type 0 where
  pub flag : s.pool.shutdown ≡ true
  pub semaphore : s.pool.semaphore_closed ≡ true

-- the calls that hold a permit, with a client or without one
abbrev pub holding : System → ℕ
holding s = s.granted + length s.running + s.returned

-- The state after a step of a closed pool: still closed, no new call, no new holder.
pub record Winding (s t : System) : Type 0 where
  pub still : IsClosed t
  pub no_entry : t.entered ≡ s.entered
  pub no_grant : holding t ≤ holding s

step-Winding : {s t : System} → Step s t → IsClosed s → Winding s t
unfolding enter acquire take_client give_back finish shut clear_pool circuit_breaker_state
step-Winding {s} (enters now p e) c = ground arith
step-Winding {s} (turned_away now x p e) c = ground arith
step-Winding {s} (acquires n p w e) c = ground arith
step-Winding {s} (rejects n x p w e) c = ground arith
step-Winding {s} (takes n k p g e) c = ground arith
step-Winding {s} (gives k before after e) c =
    let less : length s.running ≡ suc (length (before ++ after)) =
      omega (arith, ap length e, length-append before (k ∷ after), length-append before after) in
    ground (arith, less)
step-Winding {s} (finishes now n (answered a) e) c = ground arith
step-Winding {s} (finishes now n (failed x) e) c = ground arith
step-Winding {s} (finishes now n timed_out e) c = ground arith
step-Winding {s} shuts c = ground arith
step-Winding {s} (clears e) c = ground arith
step-Winding {s} (polls now) c = ground arith

-- Once the pool is closed it stays closed: whatever steps follow, no further call is counted in,
-- and the calls that hold a permit do not grow in number, so a call that waits for one is rejected.
pub Steps-Winding : {s t : System} → Steps s t → IsClosed s → Winding s t
Steps-Winding done c = record { still = c; no_entry = refl; no_grant = omega arith }
Steps-Winding {s} (more {t} r st) c =
    let before : Winding s t = Steps-Winding r c in
    let after = step-Winding st before.still in
    record {
      still = after.still;
      no_entry = omega (arith, after.no_entry, before.no_entry);
      no_grant = omega (arith, after.no_grant, before.no_grant);
    }
