-- ===== src/Auth/Tests.antt =====
-- src/auth.rs: the theorems at concrete credentials, clients and times.
use xprotocol.Prelude.{ℕ, ◌≡◌, ◌≤◌, refl, String, true, some, List, [], ◌∷◌, length, arith}
use xprotocol.Prelude.Dict.{get, insert}
use xprotocol.Error.{ok}
use xprotocol.Window.{kept}
use xprotocol.Auth.{
  Credentials, Permission, AuthContext, Authenticator, AuthMiddleware, check, has_permission,
  contains, is_valid,
}
use xprotocol.Auth.Middleware.{map_ok, regrant, regranting, check-regranting, has_permission_cross}
use xprotocol.Auth.Limiter.{
  RateLimiter, remaining, reset, new, run, check-remaining, remaining-reset, passed-le-max_requests,
}
use xprotocol.Auth.Limiter

abbrev alice : Credentials
alice = record { client_id = "alice"; token = some "t1"; api_key = some "k1" }

abbrev read_a : Permission
read_a = record { service = "a"; method = "read" }

abbrev write_b : Permission
write_b = record { service = "b"; method = "write" }

abbrev alice_context : AuthContext
alice_context = record {
  client_id = "alice";
  permissions = read_a ∷ write_b ∷ [];
  expires_at = some 150;
}

abbrev accept : Authenticator
accept now c = ok alice_context

abbrev gate : AuthMiddleware
gate = record { authenticator = accept; required_permissions = ("a", read_a ∷ []) ∷ [] }

check-regranting_example :
    check (regranting (λ ctx. []) gate) 5 alice "a" "read"
    ≡ map_ok (regrant (λ ctx. [])) (check gate 5 alice "a" "read")
check-regranting_example = check-regranting (λ ctx. []) gate 5 alice "a" "read"

-- A client that was granted nothing at all passes the check of a guarded service.
granted_nothing :
    check (regranting (λ ctx. []) gate) 5 alice "a" "read"
    ≡ ok (record alice_context { permissions = [] })
unfolding check get is_valid contains
granted_nothing = refl

has_permission_cross_example :
    has_permission alice_context (record { service = "a"; method = "write" }) ≡ true
unfolding contains
has_permission_cross_example = has_permission_cross read_a write_b alice_context refl refl

abbrev calls : List (ℕ × String)
calls = (0, "alice") ∷ (1, "bob") ∷ (5, "alice") ∷ (6, "alice") ∷ (61, "alice") ∷ []

passed-le-max_requests_example : length (kept 60 62 (run "alice" (new 2 60) [] calls).1) ≤ 2
passed-le-max_requests_example =
    passed-le-max_requests 2 60 "alice" 0 62 calls (omega arith) (omega arith)

-- The third call within the window is refused; after the window has moved on, the next one passes.
calls_that_passed : (run "alice" (new 2 60) [] calls).1 ≡ 0 ∷ 5 ∷ 61 ∷ []
unfolding run new Limiter.check get insert
calls_that_passed = refl
