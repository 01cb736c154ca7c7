-- ===== src/Ingestion/Profiler/Total.antt =====
-- internal/services/ingestion/service.go: a payload always has a profile, and what can be saved of it.
use fine_rag_core.Prelude.{
  ◌≡◌, ◌↔◌, refl, Bool, true, false, ◌||◌, Option, some, [], ◌∷◌, is_empty, Bool-cases, inl, inr,
  if◌then◌else◌, arith,
}
use fine_rag_core.Text.{Text, txt, is_blank, trim_space, trim_left, trim_right}
use fine_rag_core.Result.{Err, ok}
use fine_rag_core.Contracts.Tenant.{Time, is_zero, validate_tenant_id}
use fine_rag_core.Contracts.Profile.{
  PayloadClassification, invalid_tenant, invalid_source, invalid_payload, is_valid_class,
  IngestionMetadata, IngestionProfile, validate_ingestion_metadata, validate_ingestion_profile,
}
use fine_rag_core.Ingestion.Profiler.{
  ProfileInput, fallback_lifecycle_class, profile_of, invalid_profile, valid_profile,
  checked_profile, profile_with_tenant, profile, save_metadata, record_checked, record_profile,
}

-- Nothing is missing in an input.
abbrev pub Sufficient : ProfileInput → Type 0
Sufficient input =
    (is_empty input.tenant_id ≡ false)
    × (is_blank input.source_uri ≡ false)
    × (is_empty input.payload ≡ false)

-- What the profile of an input is, and what becomes of it.
pub record Profiled (save : IngestionMetadata → Option Err) (input : ProfileInput)
    (p : IngestionProfile) : Type 0 where
  pub same_tenant : p.metadata.tenant_id ≡ input.tenant_id
  pub valid_iff : (is_valid_class p.classification ≡ true) ↔ Sufficient input
  pub explained : is_valid_class p.classification ≡ false → is_empty p.error_reason ≡ false
  pub saved : Sufficient input → record_profile (some save) p ≡ (save p.metadata, p.metadata ∷ [])
  pub not_saved :
      is_empty input.tenant_id || is_empty input.source_uri || is_empty input.payload ≡ true
      → (record_profile (some save) p).1 ≡ []

lifecycle-nonempty : (v : Text) → is_empty (fallback_lifecycle_class v) ≡ false
unfolding fallback_lifecycle_class txt
lifecycle-nonempty v = elim (Bool-cases (is_empty (trim_space v))) [
  | inl e ↦ rw e refl
  | inr e ↦ rw (e, e) refl
]

present : (s : Text) → is_blank s ≡ false → is_empty s ≡ false
present [] h = unfold trim_space trim_left trim_right in h
present (c ∷ s) h = refl

module _ (hex_sha256 : Text → Text) (now : Time) (save : IngestionMetadata → Option Err)
    (started : is_zero now ≡ false) (hashes : (t : Text) → is_empty (hex_sha256 t) ≡ false) where
  -- Without a tenant, a source or a checksum nothing is saved.
  incomplete :
      (input : ProfileInput) (checksum : Text) (class : PayloadClassification) (reason : Text)
      → is_empty input.tenant_id || is_empty input.source_uri || is_empty checksum ≡ true
      → (record_profile (some save) (profile_of hex_sha256 now input checksum class reason)).1 ≡ []
  unfolding profile_of record_profile record_checked validate_ingestion_profile
      validate_ingestion_metadata validate_tenant_id
  incomplete input checksum class reason h = elim (Bool-cases (is_empty input.tenant_id)) [
    | inl t ↦ rw t refl
    | inr t ↦ elim (Bool-cases (is_empty checksum)) [
      | inl k ↦ rw (t, k) refl
      | inr k ↦ elim (Bool-cases (is_empty input.source_uri)) [
        | inl s ↦ rw (t, k, s) refl
        | inr s ↦ absurd (ground (arith, t, k, s, h))
      ]
    ]
  ]

  complete :
      (input : ProfileInput)
      → Sufficient input
      → validate_ingestion_profile (valid_profile hex_sha256 now input) ≡ ok tt
  unfolding valid_profile profile_of validate_ingestion_profile validate_ingestion_metadata
      validate_tenant_id
  complete input (t, s, p) =
      rw
        (
          t,
          hashes input.payload,
          present input.source_uri s,
          lifecycle-nonempty input.lifecycle_class,
          started,
        )
        refl

  -- An input with a defect has a profile that says so.
  invalid-Profiled :
      (input : ProfileInput) (class : PayloadClassification) (reason : Text)
      → is_valid_class class ≡ false
      → is_empty reason ≡ false
      → ¬ Sufficient input
      → Profiled save input (invalid_profile hex_sha256 now input class reason)
  unfolding invalid_profile
  invalid-Profiled input class reason hc hr h = record {
    same_tenant = unfold profile_of in refl;
    valid_iff = (λ v. unfold profile_of in cc (v, hc), λ s. absurd (h s));
    explained = λ v. unfold profile_of in hr;
    saved = λ s. absurd (h s);
    not_saved = λ e.
        incomplete input (if is_empty input.payload then [] else hex_sha256 input.payload) class
          reason
          (no_checksum (is_empty input.tenant_id) (is_empty input.source_uri)
            (is_empty input.payload) e);
  }
    where
      no_checksum :
          (t s p : Bool)
          → t || s || p ≡ true
          → t || s || is_empty (if p then [] else hex_sha256 input.payload) ≡ true
      no_checksum t s true e = ground arith
      no_checksum t s false e = ground arith

  valid-Profiled :
      (input : ProfileInput)
      → Sufficient input
      → Profiled save input (valid_profile hex_sha256 now input)
  unfolding record_profile record_checked save_metadata
  valid-Profiled input (t, s, p) = record {
    same_tenant = unfold valid_profile profile_of in refl;
    valid_iff = (λ v. (t, s, p), λ d. unfold valid_profile profile_of in refl);
    explained = λ v. unfold valid_profile profile_of in cc v;
    saved = λ d. rw (complete input (t, s, p)) refl;
    not_saved = λ e. absurd (ground (arith, t, p, present input.source_uri s, e));
  }

  -- If the clock has started and a checksum is never empty: every input has a profile, under its own
  -- tenant; it is classified as valid exactly if the input has a tenant, a source that is not blank
  -- and a payload, and gives a reason otherwise. Recording it saves its metadata, once, if it is
  -- valid, and saves nothing if the tenant, the source or the payload is empty.
  pub profile-Profiled :
      (input : ProfileInput)
      → (p : IngestionProfile) × (profile hex_sha256 now input ≡ ok p) × Profiled save input p
  unfolding profile profile_with_tenant validate_tenant_id checked_profile
  profile-Profiled input = elim (Bool-cases (is_empty input.tenant_id)) [
    | inl t ↦ (
      invalid_profile hex_sha256 now input invalid_tenant (txt "tenant_id_missing"),
      rw t refl,
      invalid-Profiled input invalid_tenant (txt "tenant_id_missing") refl (unfold txt in refl)
          (λ d. cc (d.0, t)),
    )
    | inr t ↦ elim (Bool-cases (is_blank input.source_uri)) [
      | inl s ↦ (
        invalid_profile hex_sha256 now input invalid_source (txt "source_uri_missing"),
        rw (t, s) refl,
        invalid-Profiled input invalid_source (txt "source_uri_missing") refl (unfold txt in refl)
            (λ d. cc (d.1, s)),
      )
      | inr s ↦ elim (Bool-cases (is_empty input.payload)) [
        | inl p ↦ (
          invalid_profile hex_sha256 now input invalid_payload (txt "payload_empty"),
          rw (t, s, p) refl,
          invalid-Profiled input invalid_payload (txt "payload_empty") refl (unfold txt in refl)
              (λ d. cc (d.2, p)),
        )
        | inr p ↦ (
          valid_profile hex_sha256 now input,
          rw (t, s, p, complete input (t, s, p)) refl,
          valid-Profiled input (t, s, p),
        )
      ]
    ]
  ]
