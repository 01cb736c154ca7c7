-- ===== src/Tests/Tokens.antt =====
-- Session tokens of backend/util/apiutil/util.go at concrete inputs.
use fine_rag_core.Prelude.{ℕ, ◌+◌, ◌-◌, ◌≡◌, refl, pos, List, [], ◌∷◌, ◌++◌, map, arith}
use fine_rag_core.Text.{txt}
use fine_rag_core.Result.{ok}
use fine_rag_core.Backend.Tokens.{AuthClaims, Codec, sign_jwt, verify_jwt}
use fine_rag_core.Backend.Tokens.Roundtrip.{
  Laws, Without, Accepted, verify_jwt-sign_jwt, verify_jwt-ok,
}

-- A coding of bytes by symbols above the dot.
abbrev pub up : ℕ → ℕ
up n = n + 100

abbrev pub down : ℕ → ℕ
down n = n - 100

abbrev pub claims : AuthClaims
claims = record { sub = txt "u"; uid = pos 7; iat = pos 10; exp = pos 20 }

abbrev pub codec : Codec
codec = record {
  sha256_hex = λ s. s;
  hmac_sha256 = λ secret left. secret ++ left;
  encode = λ bytes. map up bytes;
  decode = λ s. ok (map down s);
  marshal_header = 1 ∷ [];
  marshal = λ c. 2 ∷ 3 ∷ [];
  unmarshal = λ bytes. ok claims;
}

down-up : (bytes : List ℕ) → map down (map up bytes) ≡ bytes
down-up [] = refl
down-up (b ∷ bytes) = rw (down-up bytes) (byte b)
  where
    byte : (b : ℕ) → ◌≡◌ {A = List ℕ} ((b + 100 - 100) ∷ bytes) (b ∷ bytes)
    byte b = let h : b + 100 - 100 ≡ b = omega arith in rw h refl

up-Without : (bytes : List ℕ) → Without b'.' (map up bytes)
up-Without [] = tt
up-Without (b ∷ bytes) = (ground arith, up-Without bytes)

pub codec-Laws : Laws codec
codec-Laws = record {
  decode-encode = λ bytes. rw (down-up bytes) refl;
  encode-Without = up-Without;
}

accepted_now : verify_jwt codec (sign_jwt codec claims (txt "key")) (txt "key") (pos 15) ≡ ok claims
accepted_now = verify_jwt-sign_jwt codec codec-Laws claims (txt "key") (pos 15) refl

verify_jwt-ok_example :
    Accepted codec (sign_jwt codec claims (txt "key")) (txt "key") (pos 15) claims
verify_jwt-ok_example =
    verify_jwt-ok codec (sign_jwt codec claims (txt "key")) (txt "key") (pos 15) claims accepted_now
