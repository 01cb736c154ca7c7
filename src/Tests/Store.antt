-- ===== src/Tests/Store.antt =====
-- internal/adapters/vector/stub/adapter.go at concrete inputs.
use fine_rag_core.Prelude.{ℕ, ◌+◌, ◌*◌, ◌/◌, ◌≡◌, pos, ℤ, true, false, List, [], ◌∷◌, ltb, ◌==◌}
use fine_rag_core.Text.{Text, txt, Unicode}
use fine_rag_core.Contracts.Job.{VectorRecord}
use fine_rag_core.Contracts.Retrieval.{Float64}
use fine_rag_core.Vectors.{Arithmetic, new_adapter}
use fine_rag_core.Vectors.Shards.{
  Op, upsert_op, search_op, embedding_op, purge_op, replies, flat_replies, replies-new_adapter,
}
use fine_rag_core.Vectors.Isolation.{AllIsolated, replies-Isolated}

abbrev ascii : Unicode
ascii = record { lower = λ c. c; is_letter = λ c. true; is_digit = λ c. false }

abbrev whole : Float64 ℕ
whole = record { gt = λ a b. ltb b a; eq = λ a b. a == b; add = λ a b. a + b; of_int = λ n. n }

abbrev exact : Arithmetic ℕ ℕ
exact = record {
  of_float32 = λ n. n;
  mul = λ a b. a * b;
  div = λ a b. a / b;
  sqrt = λ a. a;
  zero = 0;
  one = 10;
  tenth = 1;
}

abbrev vector : Text → Text → VectorRecord ℕ
vector t id = record {
  record_id = id;
  tenant_id = t;
  job_id = txt "j";
  chunk_text = txt "some text";
  embedding = 1 ∷ [];
  metadata = [];
  indexed_at = 1;
  source_uri = txt "s";
  object_key = [];
  checksum = txt "c";
  retry_count = pos 0;
}

abbrev calls : List (Op ℕ × ℤ)
calls =
    (upsert_op (vector (txt "t") (txt "1") ∷ vector (txt "v") (txt "2") ∷ []), pos 1)
    ∷ (search_op (txt "t") (txt "text") (pos 5), pos 2)
    ∷ (embedding_op (txt "v") (1 ∷ []) (pos 5), pos 2)
    ∷ (purge_op (txt "t"), pos 0)
    ∷ (search_op (txt "t") (txt "text") (pos 5), pos 2)
    ∷ []

replies-new_adapter_example :
    replies whole exact ascii calls new_adapter ≡ flat_replies whole exact ascii calls []
replies-new_adapter_example = replies-new_adapter whole exact ascii calls

replies-Isolated_example :
    AllIsolated whole exact calls (replies whole exact ascii calls new_adapter)
replies-Isolated_example = replies-Isolated whole exact ascii calls
