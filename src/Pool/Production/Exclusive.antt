-- ===== src/Pool/Production/Exclusive.antt =====
-- src/pool.rs: no two calls of a `ProductionPool` share a client.
use xprotocol.Prelude.{ℕ, ◌+◌, ◌≤◌, ◌≡◌, refl, sym, some, List, ◌∷◌, ◌++◌, arith}
use xprotocol.Error.{Result, ok, err}
use xprotocol.Pool.Production.{
  PoolConfig, ProductionPool, Outcome, answered, failed, timed_out, enter, acquire, take_client,
  give_back, finish, shut, clear_pool, circuit_breaker_state,
}
use xprotocol.Pool.Production.System.{
  System, start, Step, enters, turned_away, acquires, rejects, takes, gives, finishes, shuts,
  clears, polls, Reach, here, next, count, count-append,
}

abbrev pub copies : ℕ → System → ℕ
copies c s = count c s.pool.client_pool + count c s.running

-- A client is idle or runs one call; a number that was not given out yet is neither.
pub record Exclusive (s : System) (c : ℕ) : Type 0 where
  pub once : copies c s ≤ 1
  pub fresh : s.pool.next_client ≤ c → copies c s ≡ 0

unchanged-Exclusive :
    (s t : System) (c : ℕ)
    → s.pool.client_pool ≡ t.pool.client_pool
    → s.pool.next_client ≡ t.pool.next_client
    → s.running ≡ t.running
    → Exclusive s c
    → Exclusive t c
unchanged-Exclusive s t c e f g v = ground arith

module _ (s : System) (x : ℕ) (v : Exclusive s x) where
  enters-Exclusive :
      (now : ℕ) (r : Result (Unit {0})) (p : ProductionPool)
      → enter now s.pool ≡ (r, p)
      → (p.client_pool ≡ s.pool.client_pool) × (p.next_client ≡ s.pool.next_client)
  unfolding enter
  enters-Exclusive now r p e = ground arith

  acquires-Exclusive :
      (r : Result (Unit {0})) (p : ProductionPool)
      → acquire s.pool ≡ some (r, p)
      → (p.client_pool ≡ s.pool.client_pool) × (p.next_client ≡ s.pool.next_client)
  unfolding acquire
  acquires-Exclusive r p e = ground arith

  takes-Exclusive :
      (n c : ℕ) (p : ProductionPool)
      → take_client s.pool ≡ (c, p)
      → Exclusive (record s { pool = p; granted = n; running = c ∷ s.running }) x
  unfolding take_client
  takes-Exclusive n c p e = ground arith

  gives-Exclusive :
      (c : ℕ) (before after : List ℕ)
      → s.running ≡ before ++ c ∷ after
      → Exclusive
          (record s {
            pool = give_back c s.pool;
            running = before ++ after;
            returned = s.returned + 1;
          })
          x
  unfolding give_back
  gives-Exclusive c before after e =
      let parts : count x s.running ≡ count x before + count x (c ∷ after) =
        rw e (count-append x before (c ∷ after)) in
      ground (arith, parts, count-append x before after)

  finishes-Exclusive :
      (now : ℕ) (o : Outcome ℕ)
      → ((finish now o s.pool).1.client_pool ≡ s.pool.client_pool)
        × ((finish now o s.pool).1.next_client ≡ s.pool.next_client)
  unfolding finish
  finishes-Exclusive now (answered a) = (refl, refl)
  finishes-Exclusive now (failed e) = (refl, refl)
  finishes-Exclusive now timed_out = (refl, refl)

  shuts-Exclusive : Exclusive (record s { pool = shut s.pool }) x
  unfolding shut
  shuts-Exclusive = ground arith

  clears-Exclusive : Exclusive (record s { pool = (clear_pool s.pool).1 }) x
  unfolding clear_pool
  clears-Exclusive = ground arith

  polls-Exclusive :
      (now : ℕ) → Exclusive (record s { pool = (circuit_breaker_state now s.pool).1 }) x
  unfolding circuit_breaker_state
  polls-Exclusive now = ground arith

pub Step-Exclusive : {s t : System} (c : ℕ) → Step s t → Exclusive s c → Exclusive t c
Step-Exclusive {s} x (enters now p e) v =
    let (a, b) = enters-Exclusive s x v now (ok tt) p e in
    unchanged-Exclusive s _ x (sym a) (sym b) refl v
Step-Exclusive {s} x (turned_away now y p e) v =
    let (a, b) = enters-Exclusive s x v now (err y) p e in
    unchanged-Exclusive s _ x (sym a) (sym b) refl v
Step-Exclusive {s} x (acquires n p w e) v =
    let (a, b) = acquires-Exclusive s x v (ok tt) p e in
    unchanged-Exclusive s _ x (sym a) (sym b) refl v
Step-Exclusive {s} x (rejects n y p w e) v =
    let (a, b) = acquires-Exclusive s x v (err y) p e in
    unchanged-Exclusive s _ x (sym a) (sym b) refl v
Step-Exclusive {s} x (takes n c p g e) v = takes-Exclusive s x v n c p e
Step-Exclusive {s} x (gives c before after e) v = gives-Exclusive s x v c before after e
Step-Exclusive {s} x (finishes now n o e) v =
    let (a, b) = finishes-Exclusive s x v now o in unchanged-Exclusive s _ x (sym a) (sym b) refl v
Step-Exclusive {s} x shuts v = shuts-Exclusive s x v
Step-Exclusive {s} x (clears e) v = clears-Exclusive s x v
Step-Exclusive {s} x (polls now) v = polls-Exclusive s x v now

start-Exclusive : (config : PoolConfig) (c : ℕ) → Exclusive (start config) c
unfolding start
start-Exclusive config c = record { once = omega arith; fresh = λ h. refl }

-- However calls interleave, a client is never in two calls, nor idle in the pool while a call
-- uses it, nor twice in the pool.
pub Reach-Exclusive : {config : PoolConfig} {s : System} (c : ℕ) → Reach config s → Exclusive s c
Reach-Exclusive {config} c here = start-Exclusive config c
Reach-Exclusive c (next r st) = Step-Exclusive c st (Reach-Exclusive c r)
