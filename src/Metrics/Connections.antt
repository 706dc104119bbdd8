-- ===== src/Metrics/Connections.antt =====
-- src/metrics.rs: what `ConnectionTracker` says after a history of connections.
use xprotocol.Prelude.{
  ℕ, ◌+◌, ◌-◌, ◌^◌, ◌<◌, ◌≡◌, refl, List, [], ◌∷◌, length, leb, arith, if◌then◌else◌,
}
use mathlib.Core.Path.{ap₂}
use xprotocol.Metrics.{
  ConnectionTracker, new_tracker, connection_opened, connection_closed, connection_error,
}

pub data Event : Type 0 where
  opened closed failed : Event

unfoldable pub track : ConnectionTracker → List Event → ConnectionTracker
track t [] = t
track t (opened ∷ es) = track (connection_opened t) es
track t (closed ∷ es) = track (connection_closed t) es
track t (failed ∷ es) = track (connection_error t) es

-- With `n` connections open, the history closes only connections that are open.
abbrev pub Plausible : ℕ → List Event → Type 0
Plausible n [] = Unit
Plausible n (opened ∷ es) = Plausible (n + 1) es
Plausible n (closed ∷ es) = (0 < n) × Plausible (n - 1) es
Plausible n (failed ∷ es) = Plausible n es

-- how many are open after the history
abbrev pub open_after : ℕ → List Event → ℕ
open_after n [] = n
open_after n (opened ∷ es) = open_after (n + 1) es
open_after n (closed ∷ es) = open_after (n - 1) es
open_after n (failed ∷ es) = open_after n es

abbrev pub larger : ℕ → ℕ → ℕ
larger a b = if leb a b then b else a

-- how many were open at once, at most
abbrev pub most_open : ℕ → ℕ → List Event → ℕ
most_open seen n [] = seen
most_open seen n (opened ∷ es) = most_open (larger (n + 1) seen) (n + 1) es
most_open seen n (closed ∷ es) = most_open seen (n - 1) es
most_open seen n (failed ∷ es) = most_open seen n es

pub record Tracked (seen n : ℕ) (es : List Event) (t : ConnectionTracker) : Type 0 where
  pub active : t.active_connections ≡ open_after n es
  pub peak : t.peak_connections ≡ most_open seen n es
  pub conserved : t.closed_connections + t.active_connections ≡ t.total_connections

track-Tracked :
    (es : List Event) (seen n : ℕ) (t : ConnectionTracker)
    → Plausible n es
    → t.active_connections ≡ n
    → t.peak_connections ≡ seen
    → t.closed_connections + n ≡ t.total_connections
    → t.total_connections + length es < 2 ^ 64
    → Tracked seen n es (track t es)
unfolding track connection_opened connection_closed connection_error
track-Tracked [] seen n t h a p c room = record {
  active = a;
  peak = p;
  conserved = omega (arith, a, c);
}
track-Tracked (opened ∷ es) seen n t h a p c room =
    let v =
      track-Tracked es (larger (n + 1) seen) (n + 1) (connection_opened t) h
        (omega (arith, a, c, room)) (ap₂ larger (omega (arith, a, c, room)) p)
        (omega (arith, a, c, room)) (omega (arith, a, c, room)) in
    record { active = v.active; peak = v.peak; conserved = v.conserved }
track-Tracked (closed ∷ es) seen n t h a p c room =
    let v =
      track-Tracked es seen (n - 1) (connection_closed t) h.1 (omega (arith, a, c, room, h.0)) p
        (omega (arith, a, c, room, h.0)) (omega (arith, a, c, room)) in
    record { active = v.active; peak = v.peak; conserved = v.conserved }
track-Tracked (failed ∷ es) seen n t h a p c room =
    let v = track-Tracked es seen n (connection_error t) h a p c (omega (arith, room)) in
    record { active = v.active; peak = v.peak; conserved = v.conserved }

-- After a history of fewer than 2 ^ 64 events in which only open connections close, the tracker
-- has the number of open connections, the most that were open at once, and as many closed and
-- open connections as it has counted in all.
pub new_tracker-Tracked :
    (es : List Event) → Plausible 0 es → length es < 2 ^ 64 → Tracked 0 0 es (track new_tracker es)
unfolding new_tracker
new_tracker-Tracked es h room =
    track-Tracked es 0 0 new_tracker h refl refl refl (omega (arith, room))
