-- ===== src/Pool/Connections/Tallies.antt =====
-- src/pool.rs: what the counters of `UdsConnectionPool` say, and which sockets it keeps.
use xprotocol.Prelude.{◌+◌, ◌%◌, ◌≡◌, refl, List, [], ◌∷◌, Option, none, some, u64_mod, arith}
use xprotocol.Error.{ProtocolError, Result, ok, err, IoResult, io_ok, io_err}
use xprotocol.Protocol.{ServiceRequest}
use xprotocol.Client.Uds.{Link, Socket, ClientJson}
use xprotocol.Pool.Connections.{
  ConnectionPoolMetrics, count_request, IdlePool, UdsConnectionPool, new, put, do_call, obtain,
  use_stream, call,
}

-- Every request is a hit or a miss, a hit reuses a connection and a miss creates one, as far as
-- words of 64 bits hold it.
pub record IsTallied (m : ConnectionPoolMetrics) : Type 0 where
  pub found : m.total_requests ≡ (m.pool_hits + m.pool_misses) % u64_mod
  pub reused : m.connections_reused ≡ m.pool_hits
  pub created : m.connections_created ≡ m.pool_misses

module _ (l : Link) (i : IdlePool l) (j : ClientJson) where
  open j use {Value}

  obtain-IsTallied :
      (d : IoResult (Socket l)) (x : Option (Socket l) × i.P) (p : UdsConnectionPool i)
      → IsTallied p.metrics
      → IsTallied
          (obtain l i j d x (record p { metrics = count_request l i j p.metrics })).1.metrics
  obtain-IsTallied d (some s, pool) p h = record {
    found = omega (arith, h.found);
    reused = omega (arith, h.reused);
    created = h.created;
  }
  obtain-IsTallied (io_ok s) (none, pool) p h = record {
    found = omega (arith, h.found);
    reused = h.reused;
    created = omega (arith, h.created);
  }
  obtain-IsTallied (io_err s) (none, pool) p h = record {
    found = omega (arith, h.found);
    reused = h.reused;
    created = omega (arith, h.created);
  }

  use_stream-metrics :
      (request : ServiceRequest Value) (x : Result (Socket l) × UdsConnectionPool i)
      → (use_stream l i j request x).1.metrics ≡ x.1.metrics
  unfolding put
  use_stream-metrics request (ok s, p) = refl
  use_stream-metrics request (err e, p) = refl

  -- the calls of a history: what dialling gives, where it comes to that, and the request
  abbrev pub Call : Type 0
  Call = IoResult (Socket l) × ServiceRequest Value

  abbrev pub run : UdsConnectionPool i → List Call → UdsConnectionPool i
  run p [] = p
  run p ((d, request) ∷ cs) = run (call l i j d request p).1 cs

  call-IsTallied :
      (d : IoResult (Socket l)) (request : ServiceRequest Value) (p : UdsConnectionPool i)
      → IsTallied p.metrics
      → IsTallied (call l i j d request p).1.metrics
  unfolding call
  call-IsTallied d request p h =
      rw
        (use_stream-metrics request
          (obtain l i j d (i.take p.pool) (record p { metrics = count_request l i j p.metrics })))
        (obtain-IsTallied d (i.take p.pool) p h)

  run-IsTallied :
      (p : UdsConnectionPool i) (cs : List Call)
      → IsTallied p.metrics
      → IsTallied (run p cs).metrics
  run-IsTallied p [] h = h
  run-IsTallied p ((d, request) ∷ cs) h =
      run-IsTallied (call l i j d request p).1 cs (call-IsTallied d request p h)

  -- After any calls, one after the other, on a new pool, whatever they come to: the requests are
  -- the hits and the misses together, as far as a word of 64 bits holds them; a connection counts
  -- as reused for each hit and as created for each miss, dials that failed among them.
  pub new-IsTallied : (pool : i.P) (cs : List Call) → IsTallied (run (new l i j pool) cs).metrics
  unfolding new
  new-IsTallied pool cs =
      run-IsTallied (new l i j pool) cs (record { found = refl; reused = refl; created = refl })

  -- A call that takes a socket from the pool and fails on it, whatever the error, puts that socket
  -- back under the next id, for a later call to take.
  pub call_keeps_broken_socket :
      (d : IoResult (Socket l)) (request : ServiceRequest Value) (p : UdsConnectionPool i)
      (pool : i.P) (s s' : Socket l) (e : ProtocolError)
      → i.take p.pool ≡ (some s, pool)
      → do_call l i j request s ≡ (err e, s')
      → ((call l i j d request p).0 ≡ err e)
        × ((call l i j d request p).1.pool ≡ i.keep p.connection_id s' pool)
  unfolding call put
  call_keeps_broken_socket d request p pool s s' e taken failed =
      (rw taken (rw failed refl), rw taken (rw failed refl))
