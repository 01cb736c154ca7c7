-- ===== src/Backend/Login.antt =====
-- backend/managers/auth.go: the login, which gives a token to a user with a password or a key.
pub mod Issued
use fine_rag_core.Prelude.{ℕ, ◌+◌, ℤ, Bool, true, not, ◌&&◌, is_empty, if◌then◌else◌}
use fine_rag_core.Text.{Text, txt, trim_space, is_blank}
use fine_rag_core.Result.{message, Result, ok, err}
use fine_rag_core.Contracts.Tenant.{Time}
use fine_rag_core.Backend.Tokens.{AuthClaims, Codec, sign_jwt, verify_secret}

pub record AuthManager : Type 0 where
  pub secret : Text
  pub token_ttl : Time

pub record DbUser : Type 0 where
  pub id : ℤ
  pub username : Text
  pub password_hash : Text
  pub api_key_hash : Text
  pub active : Bool

pub record LoginRequest : Type 0 where
  pub username : Text
  pub password : Text
  pub api_key : Text

pub data LoginReply : Type 0 where
  login_failed : ℕ → Text → Text → LoginReply
  issued : ℕ → Text → LoginReply

-- `unix` is `Time.Unix`.
module _ (k : Codec) (unix : Time → ℤ) (m : AuthManager) where
  unfoldable pub credentials_match : DbUser → LoginRequest → Bool
  credentials_match user req =
      let by_password =
        not (is_blank req.password) && verify_secret k req.password user.password_hash in
      let by_key = not (is_blank req.api_key) && verify_secret k req.api_key user.api_key_hash in
      if by_password then true else by_key

  unfoldable pub login_claims : DbUser → Time → AuthClaims
  login_claims user now = record {
    sub = user.username;
    uid = user.id;
    iat = unix now;
    exp = unix (now + m.token_ttl);
  }

  invalid_credentials : LoginReply
  unfolding txt
  invalid_credentials = login_failed 401 (txt "invalid_credentials") (txt "invalid credentials")

  user_found : LoginRequest → Time → Result DbUser → LoginReply
  unfolding credentials_match login_claims invalid_credentials
  user_found req now (err e) = invalid_credentials
  user_found req now (ok user) =
      if not user.active
      then invalid_credentials
      else if not (credentials_match user req)
      then invalid_credentials
      else issued 200 (sign_jwt k (login_claims user now) m.secret)

  body_decoded : (Text → Result DbUser) → Time → Result LoginRequest → LoginReply
  unfolding user_found txt
  body_decoded fetch now (err e) = login_failed 400 (txt "invalid_json") (message e)
  body_decoded fetch now (ok req) =
      let name = trim_space req.username in
      let found = user_found req now (fetch name) in
      if is_empty name
      then login_failed 400 (txt "username_required") (txt "username is required")
      else found

  -- `fetch` is `fetchUserByUsername`.
  unfoldable pub handle_login : (Text → Result DbUser) → Time → Result LoginRequest → LoginReply
  unfolding body_decoded
  handle_login fetch now body = body_decoded fetch now body
