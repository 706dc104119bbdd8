-- ===== src/Auth.antt =====
-- src/auth.rs: credentials, authenticators, permissions and the rate limiter of each client. The
-- locks are held for the whole of each operation, so an operation is one step.
pub mod Tokens
pub mod Composite
pub mod Middleware
pub mod Limiter
mod Tests
use xprotocol.Prelude.{
  ℕ, ◌+◌, ◌-◌, String, Bool, true, false, ◌&&◌, ◌||◌, Option, none, some, List, [], ◌∷◌, ◌++◌,
  length, retain, any, ltb, str_eq, if◌then◌else◌,
}
use xprotocol.Prelude.Dict.{Dict, get, insert, remove}
use xprotocol.Error.{ProtocolError, protocol, Result, ok, err, ◌>>=◌}
use xprotocol.Window.{live}

pub record Credentials : Type 0 where
  pub client_id : String
  pub token : Option String
  pub api_key : Option String

pub record Permission : Type 0 where
  pub service : String
  pub method : String

pub record AuthContext : Type 0 where
  pub client_id : String
  pub permissions : List Permission
  pub expires_at : Option ℕ

before_expiry : ℕ → Option ℕ → Bool
before_expiry now (some expires) = ltb now expires
before_expiry now none = true

unfoldable pub is_valid : ℕ → AuthContext → Bool
unfolding before_expiry
is_valid now ctx = before_expiry now ctx.expires_at

abbrev pub all_permissions : Permission
all_permissions = record { service = "*"; method = "*" }

covers_service : Permission → Permission → Bool
covers_service asked p = str_eq p.service "*" || str_eq p.service asked.service

covers_method : Permission → Permission → Bool
covers_method asked p =
    if str_eq p.method "*"
    then true
    else if str_eq asked.method "*"
    then true
    else str_eq p.method asked.method

unfoldable pub has_permission : AuthContext → Permission → Bool
unfolding covers_service covers_method
has_permission ctx asked =
    any (covers_service asked) ctx.permissions && any (covers_method asked) ctx.permissions

-- derived `PartialEq`, and `Vec::contains`
permission_eq : Permission → Permission → Bool
permission_eq p q = str_eq p.service q.service && str_eq p.method q.method

unfoldable pub contains : List Permission → Permission → Bool
unfolding permission_eq
contains ps p = any (λ q. permission_eq q p) ps

-- trait Authenticator, called at a time
abbrev pub Authenticator : Type 0
Authenticator = ℕ → Credentials → Result AuthContext

-- `Option::ok_or_else` under `?`
abbrev pub ok_or {ℓ} : {A : Type ℓ} → Option A → ProtocolError → Result A
ok_or none e = err e
ok_or (some a) e = ok a

pub record TokenAuthenticator : Type 0 where
  pub tokens : Dict AuthContext
  pub token_ttl : ℕ

-- `Duration::from_secs(3600)`, in milliseconds
unfoldable pub new_tokens : TokenAuthenticator
new_tokens = record { tokens = []; token_ttl = 3600000 }

unfoldable pub with_ttl : ℕ → TokenAuthenticator → TokenAuthenticator
with_ttl ttl a = record a { token_ttl = ttl }

unfoldable pub add_token :
    ℕ → String → String → List Permission → TokenAuthenticator → TokenAuthenticator
add_token now token client_id permissions a = record a {
  tokens =
      insert token
        (record {
          client_id = client_id;
          permissions = permissions;
          expires_at = some (now + a.token_ttl);
        })
        a.tokens;
}

unfoldable pub remove_token : String → TokenAuthenticator → TokenAuthenticator
remove_token token a = record a { tokens = remove token a.tokens }

unfoldable pub authenticate_token : TokenAuthenticator → Authenticator
authenticate_token a now credentials = do
  token ← ok_or credentials.token (protocol "missing authentication token")
  ctx ← ok_or (get token a.tokens) (protocol "invalid token")
  if is_valid now ctx then ok ctx else err (protocol "token expired")

pub record ApiKeyAuthenticator : Type 0 where
  pub keys : Dict (String × List Permission)

unfoldable pub add_key :
    String → String → List Permission → ApiKeyAuthenticator → ApiKeyAuthenticator
add_key api_key client_id permissions a = record a {
  keys = insert api_key (client_id, permissions) a.keys;
}

unfoldable pub authenticate_key : ApiKeyAuthenticator → Authenticator
authenticate_key a now credentials = do
  api_key ← ok_or credentials.api_key (protocol "missing API key")
  entry ← ok_or (get api_key a.keys) (protocol "invalid API key")
  ok (record { client_id = entry.0; permissions = entry.1; expires_at = none })

-- `CompositeAuthenticator::add`; the composite is the list of its authenticators
unfoldable pub add_authenticator : Authenticator → List Authenticator → List Authenticator
add_authenticator a as' = as' ++ a ∷ []

-- the loop of `CompositeAuthenticator::authenticate`, with the error that it has kept
unfoldable pub first_ok :
    ℕ → Credentials → Option ProtocolError → List Authenticator → Result AuthContext
first_ok now c last_error [] = elim last_error [
  | none ↦ err (protocol "authentication failed")
  | some e ↦ err e
]
first_ok now c last_error (a ∷ as') = elim (a now c) [
  | ok ctx ↦ ok ctx
  | err e ↦ first_ok now c (some e) as'
]

unfoldable pub authenticate_composite : List Authenticator → Authenticator
unfolding first_ok
authenticate_composite authenticators now c = first_ok now c none authenticators

pub record AuthMiddleware : Type 0 where
  pub authenticator : Authenticator
  pub required_permissions : Dict (List Permission)

or_default : Option (List Permission) → List Permission
or_default none = []
or_default (some ps) = ps

unfoldable pub require_permission : String → Permission → AuthMiddleware → AuthMiddleware
unfolding or_default
require_permission service permission m = record m {
  required_permissions =
      insert service (or_default (get service m.required_permissions) ++ permission ∷ [])
        m.required_permissions;
}

check_required : Option (List Permission) → Permission → AuthContext → Result AuthContext
check_required none permission ctx = ok ctx
check_required (some required) permission ctx =
    if contains required permission || contains required all_permissions
    then ok ctx
    else err (protocol "permission denied")

unfoldable pub check : AuthMiddleware → ℕ → Credentials → String → String → Result AuthContext
unfolding check_required
check m now credentials service method = do
  ctx ← m.authenticator now credentials
  if is_valid now ctx
      then check_required (get service m.required_permissions)
          (record { service = service; method = method }) ctx
      else err (protocol "authentication expired")
