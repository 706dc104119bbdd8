-- ===== src/Pool/Connections.antt =====
-- src/pool.rs: `UdsConnectionPool`. The pool of idle sockets is pingora's, which is a parameter.
pub mod Tallies
mod Tests
use xprotocol.Prelude.{
  ℕ, ◌-◌, String, Bool, true, false, not, Option, none, some, List, ltb, ◌==◌, fetch_add,
  str_append, decimal, if◌then◌else◌,
}
use xprotocol.Error.{
  ProtocolError, connection_failed, protocol, Result, ok, err, IoResult, io_ok, io_err, from_json,
}
use xprotocol.Action.{Action, lift, ◌>>=◌, ◌>>◌}
use xprotocol.Protocol.{ServiceRequest, ServiceResponse}
use xprotocol.Wire.{msg_request, msg_response}
use xprotocol.Client.Uds.{Link, Socket, ClientJson, put_json, get_message}

-- times in seconds
pub record PooledConnectionMeta : Type 0 where
  pub id : ℕ
  pub path : String
  pub created_at : ℕ
  pub last_used_at : ℕ
  pub use_count : ℕ

abbrev pub new_meta : ℕ → ℕ → String → PooledConnectionMeta
new_meta now id path = record {
  id = id;
  path = path;
  created_at = now;
  last_used_at = now;
  use_count = 0;
}

abbrev pub record_use : ℕ → PooledConnectionMeta → PooledConnectionMeta
record_use now m = record m { use_count = fetch_add m.use_count 1; last_used_at = now }

abbrev pub is_idle_timeout : ℕ → ℕ → PooledConnectionMeta → Bool
is_idle_timeout now max_idle_secs m = ltb max_idle_secs (now - m.last_used_at)

pub record ConnectionPoolMetrics : Type 0 where
  pub total_requests : ℕ
  pub connections_created : ℕ
  pub connections_reused : ℕ
  pub pool_hits : ℕ
  pub pool_misses : ℕ
  pub connections_evicted : ℕ

abbrev pub zero_metrics : ConnectionPoolMetrics
zero_metrics = record {
  total_requests = 0;
  connections_created = 0;
  connections_reused = 0;
  pool_hits = 0;
  pool_misses = 0;
  connections_evicted = 0;
}

-- The f64 arithmetic is a parameter: the sum of two counts, whether it is 0, and
-- `(reused / total) * 100.0`.
unfoldable pub reuse_rate :
    {F64 : Type 0}
    → (ℕ → F64)
    → (F64 → F64 → F64)
    → (F64 → Bool)
    → (F64 → F64 → F64)
    → ConnectionPoolMetrics
    → F64
reuse_rate of_count add is_zero percentage m =
    let reused = of_count m.connections_reused in
    let total = add (of_count m.connections_created) reused in
    if is_zero total then of_count 0 else percentage reused total

-- pingora_pool, with one key: `put` stands under an id
pub record IdlePool (l : Link) : Type 1 where
  pub P : Type 0
  pub take : P → Option (Socket l) × P
  pub keep : ℕ → Socket l → P → P
  pub pop_closed : ℕ → P → P

pub record UdsConnectionPool {l : Link} (i : IdlePool l) : Type 0 where
  pub pool : i.P
  pub max_idle_secs : ℕ
  pub connection_id : ℕ
  pub metrics : ConnectionPoolMetrics

module _ (l : Link) (i : IdlePool l) (j : ClientJson) where
  open j use {Value}

  -- `pool` is `ConnectionPool::new(max_connections)`
  unfoldable pub new : i.P → UdsConnectionPool i
  new pool = record { pool = pool; max_idle_secs = 300; connection_id = 0; metrics = zero_metrics }

  abbrev pub with_max_idle_secs : ℕ → UdsConnectionPool i → UdsConnectionPool i
  with_max_idle_secs secs p = record p { max_idle_secs = secs }

  unfoldable pub put : Socket l → UdsConnectionPool i → UdsConnectionPool i
  put s p = record p {
    pool = i.keep p.connection_id s p.pool;
    connection_id = fetch_add p.connection_id 1;
  }

  abbrev pub took :
      Option (Socket l) × i.P → UdsConnectionPool i → Option (Socket l) × UdsConnectionPool i
  took (s, pool) p = (s, record p { pool = pool })

  abbrev pub take_idle : UdsConnectionPool i → Option (Socket l) × UdsConnectionPool i
  take_idle p = took (i.take p.pool) p

  -- drops what stands under the id 0
  abbrev pub cleanup : UdsConnectionPool i → UdsConnectionPool i
  cleanup p = record p { pool = i.pop_closed 0 p.pool }

  abbrev pub close : UdsConnectionPool i → UdsConnectionPool i
  close p = p

  unfoldable pub read_reply : ℕ × List ℕ → Result (ServiceResponse Value)
  read_reply (msg_type, payload) =
      if not (msg_type == msg_response)
      then err (
          protocol (
            str_append "invalid response type: expected "
              (str_append (decimal msg_response) (str_append ", got " (decimal msg_type)))))
      else from_json (j.read_response payload)

  unfoldable pub do_call : ServiceRequest Value → Action (Socket l) (ServiceResponse Value)
  unfolding put_json get_message read_reply
  do_call request = do
    put_json msg_request (j.request_body request)
    m ← get_message
    lift (read_reply m)

  abbrev pub count_request : ConnectionPoolMetrics → ConnectionPoolMetrics
  count_request m = record m { total_requests = fetch_add m.total_requests 1 }

  abbrev pub count_hit : ConnectionPoolMetrics → ConnectionPoolMetrics
  count_hit m = record m {
    pool_hits = fetch_add m.pool_hits 1;
    connections_reused = fetch_add m.connections_reused 1;
  }

  abbrev pub count_miss : ConnectionPoolMetrics → ConnectionPoolMetrics
  count_miss m = record m {
    pool_misses = fetch_add m.pool_misses 1;
    connections_created = fetch_add m.connections_created 1;
  }

  abbrev pub count_evicted : ConnectionPoolMetrics → ConnectionPoolMetrics
  count_evicted m = record m { connections_evicted = fetch_add m.connections_evicted 1 }

  -- both arms of the `match &result` put the stream back
  abbrev pub put_back :
      Result (ServiceResponse Value) × Socket l
      → UdsConnectionPool i
      → Result (ServiceResponse Value) × UdsConnectionPool i
  put_back (r, s) p = (r, put s p)

  -- a socket from the pool, or what `UnixStream::connect` gives
  abbrev pub obtain :
      IoResult (Socket l)
      → Option (Socket l) × i.P
      → UdsConnectionPool i
      → Result (Socket l) × UdsConnectionPool i
  obtain d (some s, pool) p = (ok s, record p { pool = pool; metrics = count_hit p.metrics })
  obtain (io_ok s) (none, pool) p = (ok s, record p { pool = pool; metrics = count_miss p.metrics })
  obtain (io_err e) (none, pool) p = (
    err (connection_failed e),
    record p { pool = pool; metrics = count_evicted (count_miss p.metrics) },
  )

  abbrev pub use_stream :
      ServiceRequest Value
      → Result (Socket l) × UdsConnectionPool i
      → Result (ServiceResponse Value) × UdsConnectionPool i
  use_stream request (ok s, p) = put_back (do_call request s) p
  use_stream request (err e, p) = (err e, p)

  unfoldable pub call :
      IoResult (Socket l)
      → ServiceRequest Value
      → UdsConnectionPool i
      → Result (ServiceResponse Value) × UdsConnectionPool i
  unfolding put
  call d request p =
      let q : UdsConnectionPool i = record p { metrics = count_request p.metrics } in
      use_stream request (obtain d (i.take q.pool) q)
