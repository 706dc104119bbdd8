-- ===== src/Session/Table.antt =====
-- src/session.rs: which sessions the table holds.
use text.Mathlib.TextPositions.{eq_refl}
use xprotocol.Prelude.{
  ℕ, ◌+◌, ◌-◌, ◌<◌, ◌≡◌, refl, String, Bool, Option, none, some, List, [], ◌∷◌, ltb, arith, str_eq,
  eq_iff, if◌then◌else◌, Option-cases, inl, inr,
}
use xprotocol.Prelude.Dict.{
  Dict, get, insert, remove, retain_values, IsUnique, insert-IsUnique, remove-IsUnique,
  retain_values-IsUnique, keep_if, get-insert, get-remove, get-retain_values,
  length-retain_values-le,
}
use xprotocol.Session.{
  Session, SessionManager, touch, idle_time, new_session, new, create_session, get_session,
  remove_session, with_max_idle_time, cleanup_idle, session_count,
}

-- what the table has under an id
abbrev pub find : String → SessionManager → Option Session
find id m = get id m.sessions

-- After `create_session` the new session is found under its id, and every other id finds what it
-- found before.
pub find-create_session :
    (now : ℕ) (uuid client_id service_name id : String) (m : SessionManager)
    → find id (create_session now uuid client_id service_name m).1 ≡ (
        if str_eq uuid id
        then some (create_session now uuid client_id service_name m).0
        else find id m)
unfolding create_session
find-create_session now uuid client_id service_name id m = get-insert uuid id _ m.sessions

abbrev pub map_touch : ℕ → Option Session → Option Session
map_touch now none = none
map_touch now (some s) = some (touch now s)

-- `get_session` gives the session with its activity set to now, keeps it so in the table, and
-- leaves every other session alone; an unknown id changes nothing.
pub find-get_session :
    (now : ℕ) (id other : String) (m : SessionManager)
    → ((get_session now id m).0 ≡ map_touch now (find id m))
      × (find other (get_session now id m).1
          ≡ (if str_eq id other then map_touch now (find id m) else find other m))
unfolding get_session
find-get_session now id other m = elim (Option-cases (find id m)) [
  | inl e ↦ ground (arith, e, eq_iff id other)
  | inr (s, e) ↦ ground (arith, e, get-insert id other (touch now s) m.sessions)
]

-- `remove_session` gives what stood under the id, and leaves nothing there; the other sessions
-- stay.
pub find-remove_session :
    (id other : String) (m : SessionManager)
    → ((remove_session id m).0 ≡ find id m)
      × (find other (remove_session id m).1 ≡ (if str_eq id other then none else find other m))
unfolding remove_session
find-remove_session id other m = (refl, get-remove id other m.sessions)

-- `cleanup_idle` keeps exactly the sessions whose idle time is below the limit, as they were, and
-- returns by how many sessions the table has become smaller.
pub find-cleanup_idle :
    (now : ℕ) (id : String) (m : SessionManager)
    → IsUnique m.sessions
    → (find id (cleanup_idle now m).1
        ≡ keep_if (λ s. ltb (idle_time now s) m.max_idle_time) (find id m))
      × ((cleanup_idle now m).0 + session_count (cleanup_idle now m).1 ≡ session_count m)
unfolding cleanup_idle session_count
find-cleanup_idle now id m u =
    let keeps = λ (s : Session). ltb (idle_time now s) m.max_idle_time in
    (
      get-retain_values keeps id m.sessions u,
      omega (arith, length-retain_values-le keeps m.sessions),
    )

get_session-IsUnique :
    (now : ℕ) (id : String) (m : SessionManager)
    → IsUnique m.sessions
    → IsUnique (get_session now id m).1.sessions
unfolding get_session
get_session-IsUnique now id m u = elim (Option-cases (find id m)) [
  | inl e ↦ ground (arith, e, u)
  | inr (s, e) ↦ ground (arith, e, insert-IsUnique id (touch now s) m.sessions u)
]

get_session-max_idle_time :
    (now : ℕ) (id : String) (m : SessionManager)
    → (get_session now id m).1.max_idle_time ≡ m.max_idle_time
unfolding get_session
get_session-max_idle_time now id m = elim (Option-cases (find id m)) [
  | inl e ↦ ground (arith, e)
  | inr (s, e) ↦ ground (arith, e)
]

-- A session that was fetched at `now` outlives a cleanup that comes within the limit.
pub get_session-cleanup_idle :
    (now later : ℕ) (id : String) (s : Session) (m : SessionManager)
    → IsUnique m.sessions
    → find id m ≡ some s
    → later - now < m.max_idle_time
    → find id (cleanup_idle later (get_session now id m).1).1 ≡ some (touch now s)
unfolding idle_time touch
get_session-cleanup_idle now later id s m u e h =
    let fetched = (get_session now id m).1 in
    let found = find-get_session now id id m in
    ground (
      arith,
      e,
      h,
      eq_refl id,
      found,
      get_session-max_idle_time now id m,
      find-cleanup_idle later id fetched (get_session-IsUnique now id m u),
    )

-- The operations of the table, each at its time.
pub data Call : Type 0 where
  create : String → String → String → Call
  fetch drop : String → Call
  cleanup : Call

unfoldable pub step : SessionManager → ℕ × Call → SessionManager
step m (now, create uuid client_id service_name) =
    (create_session now uuid client_id service_name m).1
step m (now, fetch id) = (get_session now id m).1
step m (now, drop id) = (remove_session id m).1
step m (now, cleanup) = (cleanup_idle now m).1

unfoldable pub run : SessionManager → List (ℕ × Call) → SessionManager
unfolding step
run m [] = m
run m (c ∷ cs) = run (step m c) cs

-- Each session stands under its own id.
abbrev pub UnderOwnId : Dict Session → Type 0
UnderOwnId [] = Unit
UnderOwnId ((k, s) ∷ m) = (s.id ≡ k) × UnderOwnId m

pub record IsWellFormed (m : SessionManager) : Type 0 where
  pub unique : IsUnique m.sessions
  pub own : UnderOwnId m.sessions

insert-UnderOwnId :
    (k : String) (s : Session) (m : Dict Session)
    → s.id ≡ k
    → UnderOwnId m
    → UnderOwnId (insert k s m)
unfolding insert
insert-UnderOwnId k s [] e h = (e, tt)
insert-UnderOwnId k s ((j, t) ∷ m) e h = ground (arith, insert-UnderOwnId k s m e h.1)

remove-UnderOwnId : (k : String) (m : Dict Session) → UnderOwnId m → UnderOwnId (remove k m)
unfolding remove
remove-UnderOwnId k [] h = tt
remove-UnderOwnId k ((j, t) ∷ m) h = ground (arith, remove-UnderOwnId k m h.1)

retain_values-UnderOwnId :
    (p : Session → Bool) (m : Dict Session) → UnderOwnId m → UnderOwnId (retain_values p m)
unfolding retain_values
retain_values-UnderOwnId p [] h = tt
retain_values-UnderOwnId p ((j, t) ∷ m) h = ground (arith, retain_values-UnderOwnId p m h.1)

get-UnderOwnId :
    (k : String) (s : Session) (m : Dict Session) → UnderOwnId m → get k m ≡ some s → s.id ≡ k
unfolding get
get-UnderOwnId k s [] h e = ground (arith, e)
get-UnderOwnId k s ((j, t) ∷ m) h e = ground (arith, e, h, eq_iff j k, get-UnderOwnId k s m h.1)

get_session-IsWellFormed :
    (now : ℕ) (id : String) (m : SessionManager)
    → IsWellFormed m
    → IsWellFormed (get_session now id m).1
unfolding get_session touch
get_session-IsWellFormed now id m h = record {
  unique = get_session-IsUnique now id m h.unique;
  own = elim (Option-cases (find id m)) [
    | inl e ↦ ground (arith, e, h.own)
    | inr (s, e) ↦ ground (
      arith,
      e,
      insert-UnderOwnId id (touch now s) m.sessions (get-UnderOwnId id s m.sessions h.own e) h.own,
    )
  ];
}

step-IsWellFormed : (m : SessionManager) (c : ℕ × Call) → IsWellFormed m → IsWellFormed (step m c)
unfolding step create_session new_session get_session remove_session cleanup_idle
step-IsWellFormed m (now, create uuid client_id service_name) h = record {
  unique = insert-IsUnique uuid (new_session now uuid client_id service_name) m.sessions h.unique;
  own = insert-UnderOwnId uuid (new_session now uuid client_id service_name) m.sessions refl h.own;
}
step-IsWellFormed m (now, fetch id) h = get_session-IsWellFormed now id m h
step-IsWellFormed m (now, drop id) h = record {
  unique = remove-IsUnique id m.sessions h.unique;
  own = remove-UnderOwnId id m.sessions h.own;
}
step-IsWellFormed m (now, cleanup) h =
    let keeps = λ (s : Session). ltb (idle_time now s) m.max_idle_time in
    record {
      unique = retain_values-IsUnique keeps m.sessions h.unique;
      own = retain_values-UnderOwnId keeps m.sessions h.own;
    }

steps-IsWellFormed :
    (m : SessionManager) (cs : List (ℕ × Call)) → IsWellFormed m → IsWellFormed (run m cs)
unfolding run
steps-IsWellFormed m [] h = h
steps-IsWellFormed m (c ∷ cs) h = steps-IsWellFormed (step m c) cs (step-IsWellFormed m c h)

-- Whatever is done with a new table, and whenever: no id stands in it twice, and each session
-- stands under its own id.
pub run-IsWellFormed :
    (limit : ℕ) (cs : List (ℕ × Call)) → IsWellFormed (run (with_max_idle_time limit new) cs)
unfolding new with_max_idle_time
run-IsWellFormed limit cs =
    steps-IsWellFormed (with_max_idle_time limit new) cs (record { unique = tt; own = tt })
