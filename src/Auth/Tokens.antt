-- ===== src/Auth/Tokens.antt =====
-- src/auth.rs: tokens and API keys, from the table to the answer.
use xprotocol.Prelude.{ℕ, ◌+◌, ◌≡◌, String, some, none, List, arith, ltb, str_eq, if◌then◌else◌}
use xprotocol.Prelude.Dict.{get-insert, get-remove}
use xprotocol.Error.{ok, err, protocol}
use xprotocol.Auth.{
  Credentials, Permission, TokenAuthenticator, add_token, remove_token, authenticate_token,
  is_valid, ApiKeyAuthenticator, add_key, authenticate_key,
}

-- After a token was added at `now`, it admits its client, with the permissions it was given,
-- exactly until its time to live has passed; what any other token gives is as before.
pub authenticate_token-add_token :
    (a : TokenAuthenticator) (now later : ℕ) (token used client_id : String)
    (permissions : List Permission) (c : Credentials)
    → c.token ≡ some used
    → authenticate_token (add_token now token client_id permissions a) later c ≡ (
        if str_eq token used
        then (if ltb later (now + a.token_ttl)
            then ok (record {
              client_id = client_id;
              permissions = permissions;
              expires_at = some (now + a.token_ttl);
            })
            else err (protocol "token expired"))
        else authenticate_token a later c)
unfolding authenticate_token add_token is_valid
authenticate_token-add_token a now later token used client_id permissions c h =
    rw h (simp get-insert (ground arith))

-- A token that was removed is invalid from then on; every other token gives what it gave.
pub authenticate_token-remove_token :
    (a : TokenAuthenticator) (later : ℕ) (token used : String) (c : Credentials)
    → c.token ≡ some used
    → authenticate_token (remove_token token a) later c
      ≡ (if str_eq token used then err (protocol "invalid token") else authenticate_token a later c)
unfolding authenticate_token remove_token
authenticate_token-remove_token a later token used c h = rw h (simp get-remove (ground arith))

-- An API key that was added admits its client at every time; what any other key gives is as
-- before.
pub authenticate_key-add_key :
    (a : ApiKeyAuthenticator) (later : ℕ) (key used client_id : String)
    (permissions : List Permission) (c : Credentials)
    → c.api_key ≡ some used
    → authenticate_key (add_key key client_id permissions a) later c ≡ (
        if str_eq key used
        then ok (record { client_id = client_id; permissions = permissions; expires_at = none })
        else authenticate_key a later c)
unfolding authenticate_key add_key
authenticate_key-add_key a later key used client_id permissions c h =
    rw h (simp get-insert (ground arith))
