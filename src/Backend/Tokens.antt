-- ===== src/Backend/Tokens.antt =====
-- backend/util/apiutil/util.go: session tokens (JWT) and stored secrets.
--
-- SHA-256, HMAC, base64 and JSON come from Go's library. Bytes are numbers, and a text is handed to
-- these functions as it is.
pub mod Roundtrip
use fine_rag_core.Prelude.{ℕ, ℤ, leb_ℤ, Bool, false, not, List, [], ◌∷◌, ◌++◌, ◌==◌, if◌then◌else◌}
use fine_rag_core.Text.{Text, txt, str_eq, is_blank, has_prefix}
use fine_rag_core.Result.{new, Result, ok, err, ◌>>=◌, ◌>>◌, reject_if}

pub record AuthClaims : Type 0 where
  pub sub : Text
  pub uid : ℤ
  pub iat : ℤ
  pub exp : ℤ

pub record Codec : Type 0 where
  pub sha256_hex : Text → Text
  pub hmac_sha256 : Text → Text → List ℕ
  pub encode : List ℕ → Text
  pub decode : Text → Result (List ℕ)
  pub marshal_header : List ℕ
  pub marshal : AuthClaims → List ℕ
  pub unmarshal : List ℕ → Result AuthClaims

-- `strings.Split` by one symbol: the part that has begun, and the others.
unfoldable pub split_on : ℕ → Text → Text × List Text
split_on sep [] = ([], [])
split_on sep (c ∷ s) =
    let (part, parts) = split_on sep s in if c == sep then ([], part ∷ parts) else (c ∷ part, parts)

module _ (k : Codec) where
  unfoldable pub hash_secret : Text → Text
  hash_secret raw = txt "sha256$" ++ k.sha256_hex raw

  unfoldable pub verify_secret : Text → Text → Bool
  unfolding hash_secret
  verify_secret raw stored =
      if is_blank stored
      then false
      else if has_prefix stored (txt "sha256$")
      then str_eq (hash_secret raw) stored
      else str_eq raw stored

  unfoldable pub sign_jwt : AuthClaims → Text → Text
  sign_jwt claims secret =
      let left = k.encode k.marshal_header ++ (b'.' ∷ k.encode (k.marshal claims)) in
      left ++ (b'.' ∷ k.encode (k.hmac_sha256 secret left))

  -- What is left to check of a token of three parts.
  unfoldable pub verify_parts : Text → Text → Text → Text → ℤ → Result AuthClaims
  verify_parts header payload signature secret now =
      let left = header ++ (b'.' ∷ payload) in
      do
        got ← k.decode signature
        reject_if (not (str_eq (k.hmac_sha256 secret left) got)) (new (txt "signature mismatch"))
        bytes ← k.decode payload
        claims ← k.unmarshal bytes
        reject_if (leb_ℤ claims.exp now) (new (txt "expired"))
        ok claims

  verify_split : Text × List Text → Text → ℤ → Result AuthClaims
  unfolding verify_parts
  verify_split (header, payload ∷ signature ∷ []) secret now =
      verify_parts header payload signature secret now
  verify_split (header, _) secret now = err (new (txt "invalid token"))

  unfoldable pub verify_jwt : Text → Text → ℤ → Result AuthClaims
  unfolding split_on verify_split
  verify_jwt token secret now = verify_split (split_on b'.' token) secret now
