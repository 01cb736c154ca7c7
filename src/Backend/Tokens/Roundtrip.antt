-- ===== src/Backend/Tokens/Roundtrip.antt =====
-- backend/util/apiutil/util.go: `VerifyJWT` accepts what `SignJWT` makes and nothing without the
-- right code.
use fine_rag_core.Prelude.{
  not-false, ℕ, ◌≡◌, refl, sym, ap, ◌∙◌, ℤ, leb_ℤ, Bool, true, false, List, [], ◌∷◌, ◌++◌,
  append_assoc, append-nil, ◌==◌, All, Bool-cases, inl, inr, arith, if◌then◌else◌,
}
use fine_rag_core.Text.{Text, txt, str_eq_refl, str_eq→eq}
use fine_rag_core.Result.{bind-ok, reject-ok, ok-injective, new, ok, err, ◌>>◌, reject_if}
use fine_rag_core.Backend.Tokens.{
  AuthClaims, Codec, split_on, sign_jwt, verify_parts, verify_split, verify_jwt,
}

abbrev pub Without : ℕ → Text → Type 0
Without sep s = All (λ c. (c == sep) ≡ false) s

split_on-whole : (sep : ℕ) (s : Text) → Without sep s → split_on sep s ≡ (s, [])
unfolding split_on
split_on-whole sep [] h = refl
split_on-whole sep (c ∷ s) (hc, h) = rw (split_on-whole sep s h, hc) refl

split_on-next :
    (sep : ℕ) (s t : Text)
    → Without sep s
    → split_on sep (s ++ (sep ∷ t)) ≡ (s, (split_on sep t).0 ∷ (split_on sep t).1)
unfolding split_on
split_on-next sep [] t h = ground arith
split_on-next sep (c ∷ s) t (hc, h) = rw (split_on-next sep s t h, hc) refl

split_on-three :
    (sep : ℕ) (a b c : Text)
    → Without sep a
    → Without sep b
    → Without sep c
    → split_on sep ((a ++ (sep ∷ b)) ++ (sep ∷ c)) ≡ (a, b ∷ c ∷ [])
split_on-three sep a b c ha hb hc =
    rw
      (
        append_assoc,
        split_on-next sep a (b ++ (sep ∷ c)) ha,
        split_on-next sep b c hb,
        split_on-whole sep c hc,
      )
      refl

-- What base64 promises: it can be undone, and it uses no dot.
pub record Laws (k : Codec) : Type 0 where
  pub decode-encode : (bytes : List ℕ) → k.decode (k.encode bytes) ≡ ok bytes
  pub encode-Without : (bytes : List ℕ) → Without b'.' (k.encode bytes)

module _ (k : Codec) where
  signed_parts :
      (laws : Laws k) (claims : AuthClaims) (secret : Text)
      → split_on b'.' (sign_jwt k claims secret) ≡ (
        k.encode k.marshal_header,
        k.encode (k.marshal claims)
            ∷ k.encode (
                k.hmac_sha256 secret
                  (k.encode k.marshal_header ++ (b'.' ∷ k.encode (k.marshal claims))))
            ∷ [],
      )
  unfolding sign_jwt
  signed_parts laws claims secret =
      split_on-three b'.' _ _ _ (laws.encode-Without k.marshal_header)
        (laws.encode-Without (k.marshal claims)) (laws.encode-Without _)

  -- A token that was signed with the same secret gives its claims back up to their expiry, and is
  -- refused from then on, if base64 keeps its laws and JSON can be read back for these claims.
  pub verify_jwt-sign_jwt :
      (laws : Laws k) (claims : AuthClaims) (secret : Text) (now : ℤ)
      → k.unmarshal (k.marshal claims) ≡ ok claims
      → verify_jwt k (sign_jwt k claims secret) secret now
        ≡ (if leb_ℤ claims.exp now then err (new (txt "expired")) else ok claims)
  unfolding verify_jwt verify_split verify_parts
  verify_jwt-sign_jwt laws claims secret now h =
      rw
        (
          signed_parts laws claims secret,
          laws.decode-encode _,
          str_eq_refl,
          laws.decode-encode (k.marshal claims),
          h,
        )
        (expiry (leb_ℤ claims.exp now))
    where
      expiry :
          (b : Bool)
          → (do reject_if b (new (txt "expired")); ok claims)
            ≡ (if b then err (new (txt "expired")) else ok claims)
      expiry true = refl
      expiry false = refl

  -- The parts of a token that is accepted.
  pub record Accepted (token secret : Text) (now : ℤ) (claims : AuthClaims) : Type 0 where
    pub header : Text
    pub payload : Text
    pub signature : Text
    pub bytes : List ℕ
    pub whole : token ≡ header ++ (b'.' ∷ (payload ++ (b'.' ∷ signature)))
    pub authentic : k.decode signature ≡ ok (k.hmac_sha256 secret (header ++ (b'.' ∷ payload)))
    pub decoded : k.decode payload ≡ ok bytes
    pub unmarshalled : k.unmarshal bytes ≡ ok claims
    pub unexpired : leb_ℤ claims.exp now ≡ false

  rejoined : ℕ → List Text → Text
  rejoined sep [] = []
  rejoined sep (p ∷ ps) = sep ∷ (p ++ rejoined sep ps)

  split_on-rejoined :
      (sep : ℕ) (s : Text) → (split_on sep s).0 ++ rejoined sep (split_on sep s).1 ≡ s
  unfolding split_on rejoined
  split_on-rejoined sep [] = refl
  split_on-rejoined sep (c ∷ s) = elim (Bool-cases (c == sep)) [
    | inl e ↦ rw e (cc (split_on-rejoined sep s, ap (λ n. n ∷ s) (equal e)))
    | inr e ↦ rw e (ap (λ t. c ∷ t) (split_on-rejoined sep s))
  ]
    where
      equal : (c == sep) ≡ true → sep ≡ c
      equal e = ground arith

  verify_parts-ok :
      (token header payload signature secret : Text) (now : ℤ) (claims : AuthClaims)
      → token ≡ header ++ (b'.' ∷ (payload ++ (b'.' ∷ signature)))
      → verify_parts k header payload signature secret now ≡ ok claims
      → Accepted token secret now claims
  unfolding verify_parts
  verify_parts-ok token header payload signature secret now claims whole h =
      let (got, authentic, h1) = bind-ok (k.decode signature) _ claims h in
      let (same, h2) = reject-ok _ _ _ claims h1 in
      let (bytes, decoded, h3) = bind-ok (k.decode payload) _ claims h2 in
      let (found, unmarshalled, h4) = bind-ok (k.unmarshal bytes) _ claims h3 in
      let (unexpired, h5) = reject-ok _ _ _ claims h4 in
      let code = str_eq→eq _ got (not-false _ same) in
      let found_claims : found ≡ claims = ok-injective h5 in
      record {
        header = header;
        payload = payload;
        signature = signature;
        bytes = bytes;
        whole = whole;
        authentic = authentic ∙ ap ok (sym code);
        decoded = decoded;
        unmarshalled = unmarshalled ∙ ap ok found_claims;
        unexpired = rw (← found_claims) unexpired;
      }

  verify_split-ok :
      (token : Text) (parts : Text × List Text) (secret : Text) (now : ℤ) (claims : AuthClaims)
      → parts.0 ++ rejoined b'.' parts.1 ≡ token
      → verify_split k parts secret now ≡ ok claims
      → Accepted token secret now claims
  unfolding verify_split rejoined
  verify_split-ok token (header, []) secret now claims whole h = cc
  verify_split-ok token (header, p ∷ []) secret now claims whole h = cc
  verify_split-ok token (header, p ∷ s ∷ []) secret now claims whole h =
      verify_parts-ok token header p s secret now claims
        (sym whole ∙ ap (λ r. header ++ (b'.' ∷ (p ++ (b'.' ∷ r)))) (append-nil s)) h
  verify_split-ok token (header, p ∷ s ∷ q ∷ ps) secret now claims whole h = cc

  -- A token that is accepted has three parts, of which the last one decodes to the code of the first
  -- two under the secret, and the middle one to the claims that are returned and have not expired.
  pub verify_jwt-ok :
      (token secret : Text) (now : ℤ) (claims : AuthClaims)
      → verify_jwt k token secret now ≡ ok claims
      → Accepted token secret now claims
  unfolding verify_jwt
  verify_jwt-ok token secret now claims h =
      verify_split-ok token (split_on b'.' token) secret now claims (split_on-rejoined b'.' token) h
