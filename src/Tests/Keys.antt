-- ===== src/Tests/Keys.antt =====
-- internal/auth/apikey.go at concrete inputs.
use fine_rag_core.Prelude.{◌≡◌, refl, true, false, some, []}
use fine_rag_core.Text.{Text, txt}
use fine_rag_core.Result.{ok}
use fine_rag_core.Contracts.Tenant
use fine_rag_core.Contracts.Tenant.{RequestMetadata, validate_request_metadata}
use fine_rag_core.Dict
use fine_rag_core.Text
use fine_rag_core.Auth.{ApiKeyRecord, put, get_by_hash, Authenticator, claims_of, authenticate}
use fine_rag_core.Auth.Claims.{Known, Audited, authenticate-Known, authenticate-Audited}

abbrev key : ApiKeyRecord
key = record {
  api_key_id = txt "k";
  tenant_id = txt "t";
  subject = txt "s";
  raw_key_sha256 = txt "raw";
  revoked = false;
  revoked_at = 0;
  issued_at = 1;
  allowed_scopes = [];
}

abbrev authenticator : Authenticator
authenticator = record {
  store = some (get_by_hash (put key []));
  has_sink = true;
  hash_api_key = λ t. t;
  event_id = txt "evt-1";
  now = 5;
}

abbrev metadata : RequestMetadata
metadata = record { tenant_id = txt "t"; request_id = txt "r"; source_ip = []; user_agent = [] }

key_passes : (authenticate authenticator metadata (txt "raw") []).0 ≡ ok (claims_of key)
unfolding authenticate validate_request_metadata txt get_by_hash Dict.lookup put Dict.insert
    Text.str_eq Tenant.validate_auth_claims claims_of
key_passes = refl

metadata_valid : validate_request_metadata metadata ≡ ok tt
unfolding validate_request_metadata txt
metadata_valid = refl

authenticate-Known_example : Known authenticator metadata (txt "raw") (claims_of key)
authenticate-Known_example =
    authenticate-Known authenticator metadata (txt "raw") [] (claims_of key) key_passes

authenticate-Audited_example :
    Audited authenticator metadata [] (authenticate authenticator metadata (txt "wrong") [])
authenticate-Audited_example =
    authenticate-Audited authenticator metadata (get_by_hash (put key [])) (txt "wrong") [] refl
      refl metadata_valid
