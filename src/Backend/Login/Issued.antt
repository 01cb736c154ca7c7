-- ===== src/Backend/Login/Issued.antt =====
-- backend/managers/auth.go and backend/util/apiutil/util.go: a token that the login issues is the
-- token of the user whose secret was given, and is accepted as such.
use fine_rag_core.Prelude.{
  not-false, ◌≡◌, refl, ℤ, leb_ℤ, Bool, true, false, not, if◌then◌else◌, ℕ, ◌+◌,
}
use fine_rag_core.Text.{Text, trim_space}
use fine_rag_core.Result.{Result, ok, err}
use fine_rag_core.Contracts.Tenant.{Time}
use fine_rag_core.Backend.Tokens.{AuthClaims, Codec, sign_jwt, verify_jwt}
use fine_rag_core.Backend.Tokens.Roundtrip.{Laws, verify_jwt-sign_jwt}
use fine_rag_core.Backend.Login.{
  AuthManager, DbUser, LoginRequest, LoginReply, login_failed, issued, credentials_match,
  login_claims, invalid_credentials, user_found, body_decoded, handle_login,
}

module _ (k : Codec) (unix : Time → ℤ) (m : AuthManager) where
  -- Who a token was issued to.
  pub record IssuedTo (fetch : Text → Result DbUser) (now : Time) (req : LoginRequest)
      (token : Text) : Type 0 where
    pub user : DbUser
    pub fetched : fetch (trim_space req.username) ≡ ok user
    pub active : user.active ≡ true
    pub credentials : credentials_match k unix m user req ≡ true
    pub signed : token ≡ sign_jwt k (login_claims k unix m user now) m.secret

  past_failure :
      (test : Bool) (code status : ℕ) (name text token : Text) (rest : LoginReply)
      → (if test then login_failed code name text else rest) ≡ issued status token
      → (test ≡ false) × (rest ≡ issued status token)
  past_failure true code status name text token rest h = cc
  past_failure false code status name text token rest h = (refl, h)

  user_found-issued :
      (fetch : Text → Result DbUser) (now : Time) (req : LoginRequest) (status : ℕ) (token : Text)
      (r : Result DbUser)
      → fetch (trim_space req.username) ≡ r
      → user_found k unix m req now r ≡ issued status token
      → IssuedTo fetch now req token
  unfolding user_found invalid_credentials
  user_found-issued fetch now req status token (err e) hf h = cc
  user_found-issued fetch now req status token (ok user) hf h =
      let (active, h1) = past_failure (not user.active) _ status _ _ token _ h in
      let (match, h2) = past_failure _ _ status _ _ token _ h1 in
      record {
        user = user;
        fetched = hf;
        active = not-false _ active;
        credentials = not-false _ match;
        signed = cc h2;
      }

  handle_login-issued :
      (fetch : Text → Result DbUser) (now : Time) (req : LoginRequest) (status : ℕ) (token : Text)
      → handle_login k unix m fetch now (ok req) ≡ issued status token
      → IssuedTo fetch now req token
  unfolding handle_login body_decoded
  handle_login-issued fetch now req status token h =
      let (_, h1) = past_failure _ _ status _ _ token _ h in
      user_found-issued fetch now req status token _ refl h1

  -- A login that issues a token has found the user of the given name, who is active and whose password
  -- or key was given; and until the token expires, its verification gives the claims with the id of
  -- this user, if base64 keeps its laws and JSON can be read back for the
  -- claims of the user.
  pub handle_login-verified :
      (laws : Laws k) (fetch : Text → Result DbUser) (now : Time) (req : LoginRequest) (status : ℕ)
      (token : Text)
      → ((user : DbUser)
          → fetch (trim_space req.username) ≡ ok user
          → k.unmarshal (k.marshal (login_claims k unix m user now))
            ≡ ok (login_claims k unix m user now))
      → handle_login k unix m fetch now (ok req) ≡ issued status token
      → (i : IssuedTo fetch now req token) × ((later : ℤ)
          → leb_ℤ (unix (now + m.token_ttl)) later ≡ false
          → (claims : AuthClaims) × (verify_jwt k token m.secret later ≡ ok claims)
            × (claims.uid ≡ i.user.id)
            × (claims.sub ≡ i.user.username))
  handle_login-verified laws fetch now req status token json h =
      let i = handle_login-issued fetch now req status token h in
      (
        i,
        λ later fresh.
            let claims = login_claims k unix m i.user now in
            (
              claims,
              rw
                  (
                    i.signed,
                    verify_jwt-sign_jwt k laws claims m.secret later (json i.user i.fetched),
                  )
                  (unfold login_claims in rw fresh refl),
              unfold login_claims in refl,
              unfold login_claims in refl,
            ),
      )
