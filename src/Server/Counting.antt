-- ===== src/Server/Counting.antt =====
-- src/server.rs: ACTIVE_CONNECTIONS, as the one accept loop and the ends of the tasks change it.
use xprotocol.Prelude.{
  ℕ, ◌+◌, ◌-◌, ◌^◌, ◌≤◌, ◌<◌, ◌≡◌, refl, List, [], ◌∷◌, leb, arith, if◌then◌else◌,
}
use xprotocol.Server.{admit, retire}

pub data Event : Type 0 where
  accepted ended : Event

unfoldable pub run : ℕ → ℕ → List Event → ℕ
run max_connections active [] = active
run max_connections active (accepted ∷ es) = run max_connections (admit max_connections active).1 es
run max_connections active (ended ∷ es) = run max_connections (retire active) es

-- With `n` tasks alive, the history ends only tasks that are alive. A connection that arrives while
-- `max_connections` are served is dropped without a task.
abbrev pub alive_after : ℕ → ℕ → List Event → ℕ
alive_after max_connections n [] = n
alive_after max_connections n (accepted ∷ es) =
    alive_after max_connections (if leb max_connections n then n else n + 1) es
alive_after max_connections n (ended ∷ es) = alive_after max_connections (n - 1) es

abbrev pub Plausible : ℕ → ℕ → List Event → Type 0
Plausible max_connections n [] = Unit
Plausible max_connections n (accepted ∷ es) =
    Plausible max_connections (if leb max_connections n then n else n + 1) es
Plausible max_connections n (ended ∷ es) = (0 < n) × Plausible max_connections (n - 1) es

admit-alive :
    (max_connections n : ℕ)
    → max_connections < 2 ^ 64
    → n ≤ max_connections
    → (admit max_connections n).1 ≡ (if leb max_connections n then n else n + 1)
unfolding admit
admit-alive max_connections n small le = ground (arith, small, le)

alive-le :
    (max_connections n : ℕ)
    → n ≤ max_connections
    → (if leb max_connections n then n else n + 1) ≤ max_connections
alive-le max_connections n le = ground (arith, le)

retire-alive : (n : ℕ) → n < 2 ^ 64 → 0 < n → retire n ≡ n - 1
unfolding retire
retire-alive n small h = omega (arith, small, h)

-- The counter is the number of connections that are being served, and that never exceeds the
-- limit: for one server, every order in which connections arrive and end, and a limit below 2 ^ 64,
-- where each task comes to its end.
pub run-le-max_connections :
    (max_connections n : ℕ) (es : List Event)
    → max_connections < 2 ^ 64
    → n ≤ max_connections
    → Plausible max_connections n es
    → (run max_connections n es ≡ alive_after max_connections n es)
      × (run max_connections n es ≤ max_connections)
unfolding run retire
run-le-max_connections max_connections n [] small le h = (refl, le)
run-le-max_connections max_connections n (accepted ∷ es) small le h =
    rw (admit-alive max_connections n small le) (
      run-le-max_connections max_connections (if leb max_connections n then n else n + 1) es small
        (alive-le max_connections n le) h)
run-le-max_connections max_connections n (ended ∷ es) small le h =
    rw (retire-alive n (omega (arith, small, le)) h.0)
      (run-le-max_connections max_connections (n - 1) es small (omega (arith, le)) h.1)
