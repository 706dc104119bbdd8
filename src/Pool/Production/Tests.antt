-- ===== src/Pool/Production/Tests.antt =====
-- src/pool.rs: the theorems about `ProductionPool` along one short history.
use xprotocol.Prelude.{ℕ, ◌≡◌, refl, none, some, [], ◌∷◌, arith}
use xprotocol.Error.{ok, connection_failed}
use xprotocol.Breaker
use xprotocol.Pool.Production.{
  ProductionPool, Outcome, answered, default_config, with_config, enter, acquire, take_client,
  give_back, close,
}
use xprotocol.Pool.Production.System.{
  System, start, enters, acquires, takes, gives, Reach, here, next,
}
use xprotocol.Pool.Production.Counting.{Counted, Reach-Counted}
use xprotocol.Pool.Production.Exclusive.{Exclusive, Reach-Exclusive}
use xprotocol.Pool.Production.Shutdown.{Steps, done, more, Winding, Steps-Winding}
use xprotocol.Pool.Production.Sequential.{call_with_timeout, Settled, call_with_timeout_settles}
use xprotocol.Pool.Production.Reports.{Job, call_within}
use xprotocol.Pool.InTurn.{in_turn}
use xprotocol.Pool.Production.Outage.{Fault, IsUsable, broken, told, turned_away}
use xprotocol.Pool.Production.Recovery.{working, calls_recover}

-- one call, up to the point where it runs on client 0
abbrev one_running : System
one_running = record {
  pool = record (with_config default_config) {
    permits = 99;
    next_client = 1;
    metrics = record {
      total_requests = 1;
      successful_requests = 0;
      failed_requests = 0;
      circuit_breaker_opens = 0;
      timeout_errors = 0;
      active_requests = 1;
    };
  };
  waiting = 0;
  granted = 0;
  running = 0 ∷ [];
  returned = 0;
  entered = 1;
  answers = 0;
  errors = 0;
  timeouts = 0;
  rejected = 0;
}

one_running-Reach : Reach default_config one_running
unfolding start with_config enter acquire take_client Breaker.new Breaker.with_timeout
    Breaker.can_execute
one_running-Reach =
    next (next (next here (enters 5 _ refl)) (acquires 0 _ refl refl)) (takes 0 0 _ refl refl)

Reach-Counted_example : Counted 100 one_running
Reach-Counted_example = Reach-Counted one_running-Reach

Reach-Exclusive_example : Exclusive one_running 0
Reach-Exclusive_example = Reach-Exclusive 0 one_running-Reach

abbrev shut_down : System
shut_down = record one_running { pool = (close one_running.pool).1 }

-- The call that still ran puts its client into the pool of the closed system.
abbrev left_over : System
left_over = record shut_down { pool = give_back 0 shut_down.pool; running = []; returned = 1 }

left_over-Steps : Steps shut_down left_over
left_over-Steps = more done (gives 0 [] [] refl)

Steps-Winding_example : Winding shut_down left_over
unfolding close
Steps-Winding_example = Steps-Winding left_over-Steps (record { flag = refl; semaphore = refl })

left_over_client : left_over.pool.client_pool ≡ 0 ∷ []
unfolding close give_back
left_over_client = refl

abbrev quick : ℕ → Outcome ℕ
quick c = answered 42

call_with_timeout_settles_example :
    (c : ℕ) × (q : ProductionPool) × (call_with_timeout 5 9 quick (with_config default_config)
      ≡ some (ok 42, q))
    × Settled 5 9 (quick c) (with_config default_config) q
unfolding with_config Breaker.new Breaker.with_timeout Breaker.can_execute
call_with_timeout_settles_example =
    call_with_timeout_settles 5 9 99 quick (with_config default_config) refl refl refl refl
      (omega arith)

-- the server takes no connection
abbrev unreachable : Fault
unreachable = record { now = 10; later = 12; error = some (connection_failed "refused") }

-- and here it takes one and says nothing
abbrev silent : Fault
silent = record { now = 20; later = 50; error = none }

-- It is back, but the breaker has not heard of it.
abbrev back : Job ℕ
back = record { now = 30050; later = 30060; run = λ timeout. quick }

new-IsUsable : IsUsable (with_config default_config)
unfolding with_config Breaker.new Breaker.with_timeout
new-IsUsable = record { in_use = refl; granting = refl; permit = (99, refl); active = omega arith }

calls_recover_example :
    (q : ProductionPool) × (in_turn
        (call_within 30)
        (broken unreachable
          ∷ broken silent
          ∷ broken unreachable
          ∷ broken silent
          ∷ broken silent
          ∷ back
          ∷ back
          ∷ working 30051 30052 42
          ∷ [])
        (with_config default_config)
      ≡ some (
        told unreachable
            ∷ told silent
            ∷ told unreachable
            ∷ told silent
            ∷ told silent
            ∷ turned_away
            ∷ turned_away
            ∷ ok 42
            ∷ [],
        q,
      ))
    × IsUsable q
    × (q.circuit_breaker.state ≡ Breaker.closed)
    × (q.circuit_breaker.failures ≡ 0)
    × (q.metrics.total_requests ≡ 6)
unfolding with_config Breaker.new Breaker.with_timeout
calls_recover_example =
    calls_recover 30 30051 30052 42 (unreachable ∷ silent ∷ unreachable ∷ silent ∷ []) silent
      (back ∷ back ∷ []) (with_config default_config) new-IsUsable refl refl (omega arith)
      (omega arith, (omega arith, tt)) (omega arith)
