-- ===== src/Pool/Production/System.antt =====
-- src/pool.rs: a `ProductionPool` with any number of calls in flight, as steps that interleave.
use xprotocol.Prelude.{
  true, ℕ, suc, ◌+◌, ◌≡◌, some, List, [], ◌∷◌, ◌++◌, length, arith, ◌==◌, if◌then◌else◌,
}
use xprotocol.Error.{ok, err, ProtocolError}
use xprotocol.Pool.Production.{
  PoolConfig, ProductionPool, Outcome, answered, timed_out, with_config, enter, acquire,
  take_client, give_back, finish, shut, clear_pool, circuit_breaker_state,
}

-- The calls in flight: those that wait for a permit, those that hold one and have no client yet,
-- those that run on a client, and those that have given the client back and still hold the permit.
-- The last five fields count what has happened; they do not wrap.
pub record System : Type 0 where
  pub pool : ProductionPool
  pub waiting : ℕ
  pub granted : ℕ
  pub running : List ℕ
  pub returned : ℕ
  pub entered : ℕ
  pub answers : ℕ
  pub errors : ℕ
  pub timeouts : ℕ
  pub rejected : ℕ

abbrev pub in_flight : System → ℕ
in_flight s = s.waiting + s.granted + length s.running + s.returned

unfoldable pub start : PoolConfig → System
unfolding with_config
start config = record {
  pool = with_config config;
  waiting = 0;
  granted = 0;
  running = [];
  returned = 0;
  entered = 0;
  answers = 0;
  errors = 0;
  timeouts = 0;
  rejected = 0;
}

-- what a result adds to the three counts
abbrev pub is_answer : Outcome ℕ → ℕ
is_answer (answered a) = 1
is_answer x = 0

abbrev pub is_error : Outcome ℕ → ℕ
is_error (answered a) = 0
is_error x = 1

abbrev pub is_timeout : Outcome ℕ → ℕ
is_timeout timed_out = 1
is_timeout x = 0

pub data Step (s : System) : System → Type 0 where
  enters :
      (now : ℕ) (p : ProductionPool)
      → enter now s.pool ≡ (ok tt, p)
      → Step s (record s { pool = p; waiting = s.waiting + 1; entered = s.entered + 1 })
  turned_away :
      (now : ℕ) (e : ProtocolError) (p : ProductionPool)
      → enter now s.pool ≡ (err e, p)
      → Step s (record s { pool = p })
  acquires :
      (n : ℕ) (p : ProductionPool)
      → s.waiting ≡ suc n
      → acquire s.pool ≡ some (ok tt, p)
      → Step s (record s { pool = p; waiting = n; granted = s.granted + 1 })
  rejects :
      (n : ℕ) (e : ProtocolError) (p : ProductionPool)
      → s.waiting ≡ suc n
      → acquire s.pool ≡ some (err e, p)
      → Step s (record s { pool = p; waiting = n; rejected = s.rejected + 1 })
  takes :
      (n c : ℕ) (p : ProductionPool)
      → s.granted ≡ suc n
      → take_client s.pool ≡ (c, p)
      → Step s (record s { pool = p; granted = n; running = c ∷ s.running })
  gives :
      (c : ℕ) (before after : List ℕ)
      → s.running ≡ before ++ c ∷ after
      → Step s (record s {
        pool = give_back c s.pool;
        running = before ++ after;
        returned = s.returned + 1;
      })
  finishes :
      (now n : ℕ) (o : Outcome ℕ)
      → s.returned ≡ suc n
      → Step s (record s {
        pool = (finish now o s.pool).1;
        returned = n;
        answers = s.answers + is_answer o;
        errors = s.errors + is_error o;
        timeouts = s.timeouts + is_timeout o;
      })
  shuts : Step s (record s { pool = shut s.pool })
  clears : s.pool.shutdown ≡ true → Step s (record s { pool = (clear_pool s.pool).1 })
  polls : (now : ℕ) → Step s (record s { pool = (circuit_breaker_state now s.pool).1 })

pub data Reach (config : PoolConfig) : System → Type 0 where
  here : Reach config (start config)
  next : {s t : System} → Reach config s → Step s t → Reach config t

abbrev pub count : ℕ → List ℕ → ℕ
count c [] = 0
count c (x ∷ xs) = (if x == c then 1 else 0) + count c xs

pub count-append : (c : ℕ) (xs ys : List ℕ) → count c (xs ++ ys) ≡ count c xs + count c ys
count-append c [] ys = omega arith
count-append c (x ∷ xs) ys = omega (arith, count-append c xs ys)
