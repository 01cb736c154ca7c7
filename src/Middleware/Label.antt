-- ===== src/Middleware/Label.antt =====
-- internal/middleware/tenant_context.go: what is told of a request to the metrics, in which a hash
-- stands for the tenant.
use Prim.Native.Nat.{bit_xor}
use fine_rag_core.Prelude.{
  ℕ, zero, suc, ◌+◌, ◌-◌, ◌*◌, ◌/◌, ◌%◌, ◌^◌, List, [], ◌∷◌, ◌++◌, ltb, if◌then◌else◌, some,
}
use fine_rag_core.Text.{Text, txt}
use fine_rag_core.Text.Bytes.{bytes_of}
use fine_rag_core.Result.{Result, ok, ◌>>=◌}
use fine_rag_core.Contracts.Tenant.{TenantId, Context, tenant_context_from_context}

pub record TenantObservabilityMetadata : Type 0 where
  pub request_id : Text
  pub tenant_label : Text

-- FNV-1a at 32 bits, from a hash that has begun.
unfoldable pub fnv32a_from : ℕ → List ℕ → ℕ
fnv32a_from h [] = h
fnv32a_from h (b ∷ bytes) = fnv32a_from ((bit_xor h b * 16_777_619) % 2 ^ 32) bytes

abbrev pub fnv32a_offset : ℕ
fnv32a_offset = 2_166_136_261

hex_digit : ℕ → ℕ
hex_digit d = if ltb d 10 then b'0' + d else b'a' + d - 10

-- The last `k` hexadecimal digits of a number, in front of `out`.
abbrev hex_digits : ℕ → ℕ → Text → Text
hex_digits zero n out = out
hex_digits (suc k) n out = hex_digits k (n / 16) (hex_digit (n % 16) ∷ out)

-- `tenant_%08x`
unfoldable pub tenant_label : TenantId → Text
unfolding bytes_of fnv32a_from hex_digit txt
tenant_label t = txt "tenant_" ++ hex_digits 8 (fnv32a_from fnv32a_offset (bytes_of t)) []

unfoldable pub observability_metadata_from_context : Context → Result TenantObservabilityMetadata
unfolding tenant_label
observability_metadata_from_context ctx = do
  c ← tenant_context_from_context (some ctx)
  ok (record { request_id = c.request_id; tenant_label = tenant_label c.tenant_id })
