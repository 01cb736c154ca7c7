-- ===== src/Tests/Access.antt =====
-- The login and the layers of backend/ at concrete inputs.
use fine_rag_core.Prelude.{
  ◌+◌, ◌≡◌, refl, pos, ℤ, leb_ℤ, true, false, none, some, [], ◌∷◌, ◌++◌, if◌then◌else◌,
}
use fine_rag_core.Text
use fine_rag_core.Text.Bytes
use fine_rag_core.Dict
use fine_rag_core.Contracts.Tenant
use fine_rag_core.Text.{Text, txt, str_eq, trim_space, Unicode}
use fine_rag_core.Result.{Result, ok}
use fine_rag_core.Contracts.Tenant.{background}
use fine_rag_core.Backend.Tokens
use fine_rag_core.Backend.Tokens.{AuthClaims, sign_jwt, verify_jwt}
use fine_rag_core.Backend.Access
use fine_rag_core.Backend.Access.{
  RequestContext, pass, bearer_token, with_auth, UserTenants, new_window_limiter, with_tenant,
}
use fine_rag_core.Backend.Access.Admission.{Admitted, with_tenant-Admitted}
use fine_rag_core.Backend.Login
use fine_rag_core.Backend.Login.{
  AuthManager, DbUser, LoginRequest, issued, login_claims, handle_login,
}
use fine_rag_core.Backend.Login.Issued.{IssuedTo, handle_login-verified}
use fine_rag_core.Tests.Tokens.{claims, codec, codec-Laws}

abbrev ascii : Unicode
ascii = record { lower = λ c. c; is_letter = λ c. true; is_digit = λ c. false }

abbrev header : Text → Text
header name =
    if str_eq name (txt "X-Tenant-ID")
    then txt "t"
    else txt "bearer " ++ sign_jwt codec claims (txt "key")

abbrev request : RequestContext
request = record { user_id = none; request_id = txt "r"; scope = background }

abbrev with_user : RequestContext
with_user = record request {
  user_id = some (pos 7);
  scope = record { tenant_value = none; actor_value = some (txt "u") };
}

abbrev with_scope : RequestContext
with_scope = record with_user {
  scope = record {
    tenant_value = some (record { tenant_id = txt "t"; request_id = txt "r" });
    actor_value = some (txt "u");
  };
}

abbrev assignments : UserTenants
assignments = ok ((pos 7, txt "t") ∷ [])

auth_passes : with_auth codec ascii (txt "key") (pos 15) header request ≡ pass with_user
unfolding with_auth sign_jwt verify_jwt Tokens.split_on txt Text.trim_space Text.trim_right
    Text.trim_left Text.is_space Text.has_prefix Text.to_lower Text.lower_rune Text.str_eq
    Text.width Bytes.drop_bytes Bytes.symbol_bytes Tenant.with_actor_id
auth_passes = refl

tenant_passes :
    (with_tenant assignments header (txt "/p") 3 (new_window_limiter (pos 2)) with_user).0
    ≡ pass with_scope
unfolding with_tenant new_window_limiter txt Text.trim_space Text.trim_right Text.trim_left
    Text.is_space Text.str_eq Access.user_has_tenant Access.allow_key Dict.lookup Dict.insert
    Tenant.with_tenant_context
tenant_passes = refl

with_tenant-Admitted_example :
    (c : AuthClaims) × (verify_jwt codec
        (bearer_token (trim_space (header (txt "Authorization"))))
        (txt "key")
        (pos 15)
      ≡ ok c)
    × Admitted assignments
        (trim_space (header (txt "X-Tenant-ID")))
        (txt "/p")
        3
        (new_window_limiter (pos 2))
        c.uid
        with_scope
with_tenant-Admitted_example =
    with_tenant-Admitted codec ascii (txt "key") (pos 15) header request with_user with_scope
      assignments (txt "/p") 3 (new_window_limiter (pos 2)) auth_passes tenant_passes

abbrev manager : AuthManager
manager = record { secret = txt "key"; token_ttl = 10 }

abbrev user : DbUser
user = record {
  id = pos 7;
  username = txt "u";
  password_hash = txt "pass";
  api_key_hash = [];
  active = true;
}

abbrev fetch : Text → Result DbUser
fetch name = ok user

abbrev login : LoginRequest
login = record { username = txt " u "; password = txt "pass"; api_key = [] }

login_issues :
    handle_login codec pos manager fetch 10 (ok login)
    ≡ issued 200 (sign_jwt codec claims (txt "key"))
unfolding handle_login txt Text.trim_space Text.trim_right Text.trim_left Text.is_space
    Text.has_prefix Text.str_eq Tokens.verify_secret Login.login_claims Login.credentials_match
login_issues = refl

claims_read_back :
    (u : DbUser)
    → fetch (trim_space login.username) ≡ ok u
    → codec.unmarshal (codec.marshal (login_claims codec pos manager u 10))
      ≡ ok (login_claims codec pos manager u 10)
claims_read_back u e = rw (← found e) (unfold login_claims in refl)
  where
    found : {a b : DbUser} → ◌≡◌ {A = Result DbUser} (ok a) (ok b) → a ≡ b
    found h = cc

handle_login-verified_example :
    (i : IssuedTo codec pos manager fetch 10 login (sign_jwt codec claims (txt "key")))
    × ((later : ℤ)
        → leb_ℤ (pos (10 + 10)) later ≡ false
        → (c : AuthClaims) × (verify_jwt codec (sign_jwt codec claims (txt "key")) (txt "key") later
            ≡ ok c)
          × (c.uid ≡ i.user.id)
          × (c.sub ≡ i.user.username))
handle_login-verified_example =
    handle_login-verified codec pos manager codec-Laws fetch 10 login 200
      (sign_jwt codec claims (txt "key")) claims_read_back login_issues
