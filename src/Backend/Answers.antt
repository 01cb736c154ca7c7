-- ===== src/Backend/Answers.antt =====
-- backend/managers/search.go: the answer of the language model and the best documents for a question;
-- TruncateForDebugLog of backend/util/apiutil/util.go.
--
-- A call of the model takes the turn as those of the retrieval service do. A snippet may panic.
pub mod Shown
pub mod Fit
use fine_rag_core.Prelude.{
  ℕ, ◌+◌, ℤ, is_nonpos, Bool, ◌||◌, Option, none, some, List, [], ◌∷◌, ◌++◌, not, take, is_empty,
  leb, if◌then◌else◌,
}
use fine_rag_core.Text.{Text, txt, trim_space, byte_len, join, Unicode}
use fine_rag_core.Text.Bytes.{take_bytes}
use fine_rag_core.Result.{new, Result, ok, err, ◌>>=◌, ◌>>◌, reject_if}
use fine_rag_core.Contracts.Job.{Attributes}
use fine_rag_core.Contracts.Retrieval.{Float64, RetrievalDocument, take_int}
use fine_rag_core.Retrieval.{State, next_turn}
use fine_rag_core.Backend.Noise.{has_readable_signal}
use fine_rag_core.Backend.Terms.{rank_documents_by_query_intent}
use fine_rag_core.Backend.Snippets.{single_spaced, build_answer_snippet, build_context_part}

-- `GenerateAnswer` for a query and a context.
abbrev pub LlmAnswerGenerator : Type 0
LlmAnswerGenerator = ℕ → Text → Text → Result Text

pub record TopVector (S : Type 0) : Type 0 where
  pub rank : ℕ
  pub document_id : Text
  pub source_uri : Text
  pub score : S
  pub snippet : Text
  pub metadata : Attributes

unfoldable pub truncate_for_debug_log : Text → ℕ → Text
unfolding take_bytes txt
truncate_for_debug_log input max_len =
    let value = trim_space input in
    if leb max_len 0 || leb (byte_len value) max_len
    then value
    else take_bytes max_len value ++ txt "..."

abbrev pub add_part : Option Text → Option (List Text) → Option (List Text)
add_part none parts = none
add_part (some cleaned) none = none
add_part (some cleaned) (some parts) = some (if is_empty cleaned then parts else cleaned ∷ parts)

-- `xs[:limit]`, for the limit or 5
abbrev pub take_limit {ℓ} : {A : Type ℓ} → ℤ → List A → List A
take_limit limit xs = if is_nonpos limit then take 5 xs else take_int limit xs

-- What the answer of the model becomes.
unfoldable pub sanitized_answer : Text → Result Text
unfolding truncate_for_debug_log
sanitized_answer generated = do
  let answer = trim_space generated
  reject_if (is_empty answer) (new (txt "empty llm answer"))
  let collapsed = trim_space (single_spaced answer)
  reject_if (not (has_readable_signal collapsed)) (new (txt "unreadable llm answer"))
  ok (truncate_for_debug_log collapsed 1200)

-- The text that the model is given.
pub context_text : List Text → Text
unfolding txt
context_text parts =
    let joined = trim_space (join parts (txt "\n\n")) in
    if is_empty joined then txt "No retrieved documents found for this query." else joined

-- The call of the model, which is not made after a panic.
pub generated_from :
    LlmAnswerGenerator → Text → State → Option (List Text) → Option (Result Text) × State
unfolding context_text sanitized_answer
generated_from generate query st none = (none, st)
generated_from generate query st (some parts) =
    (some (generate st.turn query (context_text parts) >>= sanitized_answer), next_turn st)

-- `none` is a panic.
module _ (u : Unicode) (cgpa_value : Text → Bool) (replace_runs : (Text → Text) → Text → Text) where
  module _ {S : Type 0} where
    unfoldable pub context_parts : Text → List (RetrievalDocument S) → Option (List Text)
    unfolding build_context_part
    context_parts query [] = some []
    context_parts query (d ∷ ds) =
        add_part (build_context_part u replace_runs query d.content) (context_parts query ds)

    top_vector : ℕ → RetrievalDocument S → Text → TopVector S
    top_vector rank d snippet = record {
      rank = rank;
      document_id = d.document_id;
      source_uri = d.source_uri;
      score = d.score;
      snippet = snippet;
      metadata = d.metadata;
    }

    add_vector :
        ℕ
        → RetrievalDocument S
        → Option Text
        → Option (List (TopVector S))
        → Option (List (TopVector S))
    unfolding top_vector
    add_vector rank d none rest = none
    add_vector rank d (some snippet) none = none
    add_vector rank d (some snippet) (some rest) = some (top_vector rank d snippet ∷ rest)

    -- The loop of `buildTopFilteredVectors`, from a rank on.
    unfoldable pub vectors_from :
        ℕ → Text → List (RetrievalDocument S) → Option (List (TopVector S))
    unfolding add_vector build_answer_snippet
    vectors_from rank query [] = some []
    vectors_from rank query (d ∷ ds) =
        add_vector rank d (build_answer_snippet u query d.content)
          (vectors_from (rank + 1) query ds)

    unfoldable pub build_top_filtered_vectors :
        Float64 S → Text → List (RetrievalDocument S) → ℤ → Option (List (TopVector S))
    unfolding vectors_from rank_documents_by_query_intent
    build_top_filtered_vectors f query docs limit =
        let ranked = rank_documents_by_query_intent u cgpa_value f query docs in
        if is_empty docs then some [] else vectors_from 1 query (take_limit limit ranked)

    -- `generateFinalAnswerStrict`
    unfoldable pub generate_final_answer_strict :
        Option LlmAnswerGenerator
        → Text
        → List (RetrievalDocument S)
        → State
        → Option (Result Text) × State
    unfolding context_parts generated_from txt
    generate_final_answer_strict none query docs st =
        (some (err (new (txt "llm client is not configured"))), st)
    generate_final_answer_strict (some generate) query docs st =
        generated_from generate query st (context_parts query (take 4 docs))
