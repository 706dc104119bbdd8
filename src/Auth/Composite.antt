-- ===== src/Auth/Composite.antt =====
-- src/auth.rs: `CompositeAuthenticator` tries its authenticators in order.
use xprotocol.Prelude.{ℕ, ◌≡◌, Option, none, some, List, [], ◌∷◌, ◌++◌}
use xprotocol.Error.{ProtocolError, ok, err}
use xprotocol.Auth.{Credentials, AuthContext, Authenticator, first_ok, authenticate_composite}

-- each of the authenticators refuses
abbrev pub AllRefuse : ℕ → Credentials → List Authenticator → Type 0
AllRefuse now c [] = Unit
AllRefuse now c (a ∷ rest) = ((e : ProtocolError) × (a now c ≡ err e)) × AllRefuse now c rest

first_ok-append :
    (now : ℕ) (c : Credentials) (kept : Option ProtocolError) (before after : List Authenticator)
    (a : Authenticator) (ctx : AuthContext)
    → AllRefuse now c before
    → a now c ≡ ok ctx
    → first_ok now c kept (before ++ a ∷ after) ≡ ok ctx
unfolding first_ok
first_ok-append now c kept [] after a ctx h e = rw (e, first_ok)
first_ok-append now c kept (b ∷ before) after a ctx ((x, f), h) e =
    rw (f, first_ok) (first_ok-append now c (some x) before after a ctx h e)

first_ok_none :
    (now : ℕ) (c : Credentials) (kept : Option ProtocolError) (before : List Authenticator)
    (a : Authenticator) (x : ProtocolError)
    → AllRefuse now c before
    → a now c ≡ err x
    → first_ok now c kept (before ++ a ∷ []) ≡ err x
unfolding first_ok
first_ok_none now c kept [] a x h e = rw (e, first_ok)
first_ok_none now c kept (b ∷ before) a x ((y, f), h) e =
    rw (f, first_ok) (first_ok_none now c (some y) before a x h e)

-- The context of the first authenticator that accepts is the answer, whatever those after it
-- would say.
pub authenticate_composite_first :
    (now : ℕ) (c : Credentials) (before after : List Authenticator) (a : Authenticator)
    (ctx : AuthContext)
    → AllRefuse now c before
    → a now c ≡ ok ctx
    → authenticate_composite (before ++ a ∷ after) now c ≡ ok ctx
unfolding authenticate_composite
authenticate_composite_first now c before after a ctx h e =
    first_ok-append now c none before after a ctx h e

-- If every authenticator refuses, the error of the last one is the answer.
pub authenticate_composite_refused :
    (now : ℕ) (c : Credentials) (before : List Authenticator) (a : Authenticator)
    (x : ProtocolError)
    → AllRefuse now c before
    → a now c ≡ err x
    → authenticate_composite (before ++ a ∷ []) now c ≡ err x
unfolding authenticate_composite
authenticate_composite_refused now c before a x h e = first_ok_none now c none before a x h e
