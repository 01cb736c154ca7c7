-- ===== src/Backend/Search.antt =====
-- backend/managers/search.go: the answer to a question, from the documents of the retrieval service and
-- a language model.
--
-- A header, the decoded body, random text and the calls of the model come from outside; a call of the
-- model takes the turn as those of the retrieval service do. What is only logged is left out. A
-- snippet may panic, which ends the request with no reply.
pub mod Stream
pub mod Answered
use fine_rag_core.Prelude.{
  ℕ, ◌+◌, ℤ, pos, is_nonpos, Bool, Option, none, some, List, ◌++◌, is_empty, if◌then◌else◌,
}
use fine_rag_core.Text.{Text, txt, trim_space, Unicode}
use fine_rag_core.Result.{Err, message, Result, ok, err, on_result}
use fine_rag_core.Contracts.Tenant.{RequestMetadata}
use fine_rag_core.Contracts.Retrieval.{Float64, RetrievalQuery, RetrievalDocument, RetrievalResult}
use fine_rag_core.Retrieval.{Service, State}
use fine_rag_core.Retrieval.Search.{search}
use fine_rag_core.Backend.Terms.{rank_documents_by_query_intent}
use fine_rag_core.Backend.Answers.{
  LlmAnswerGenerator, TopVector, build_top_filtered_vectors, generate_final_answer_strict,
}

pub record SearchManager (S E : Type 0) : Type 0 where
  pub retrieval : Service S E
  pub llm : Option LlmAnswerGenerator

-- What a handler reads of a request: the tenant's header, the decoded `queryText` and `topK`, the id
-- of the context and the random text that stands in for it, and the address and agent.
pub record SearchCall : Type 0 where
  pub tenant_header : Text
  pub body : Result (Text × ℤ)
  pub request_id : Text
  pub random8 : Text
  pub source_ip : Text
  pub user_agent : Text

-- A status with an error, a panic, or what was found with the ranked documents, the best of them and
-- the text of the answer.
pub data Reply (S : Type 0) : Type 0 where
  refused : ℕ → Text → Text → Reply S
  panicked : Reply S
  found : RetrievalResult S → List (RetrievalDocument S) → List (TopVector S) → Text → Reply S

request_id_of : SearchCall → Text
unfolding txt
request_id_of q = if is_empty q.request_id then txt "req-" ++ q.random8 else q.request_id

unfoldable pub query_of : SearchCall → Text → ℤ → RetrievalQuery
unfolding request_id_of
query_of q text top_k = record {
  tenant_id = trim_space q.tenant_header;
  request_id = request_id_of q;
  query_text = text;
  top_k = top_k;
}

unfoldable pub metadata_of : SearchCall → RequestMetadata
unfolding request_id_of
metadata_of q = record {
  tenant_id = trim_space q.tenant_header;
  request_id = request_id_of q;
  source_ip = q.source_ip;
  user_agent = q.user_agent;
}

invalid_json : {S : Type 0} → Err → State → Reply S × State
unfolding txt
invalid_json e st = (refused 400 (txt "invalid_json") (message e), st)

-- `none` is a panic.
module _ (u : Unicode) (cgpa_value : Text → Bool) (replace_runs : (Text → Text) → Text → Text) where
  module _ {S E : Type 0} (f : Float64 S) (m : SearchManager S E) where
    with_answer :
        RetrievalResult S
        → List (RetrievalDocument S)
        → List (TopVector S)
        → Option (Result Text)
        → Reply S
    unfolding txt
    with_answer result ranked tops none = panicked
    with_answer result ranked tops (some (err e)) =
        refused 503 (txt "llm_unavailable") (txt "final answer generation is unavailable")
    with_answer result ranked tops (some (ok answer)) = found result ranked tops answer

    with_vectors :
        RetrievalResult S
        → Text
        → List (RetrievalDocument S)
        → Option (List (TopVector S))
        → State
        → Reply S × State
    unfolding with_answer generate_final_answer_strict
    with_vectors result text ranked none st = (panicked, st)
    with_vectors result text ranked (some tops) st =
        let (answer, st') =
          generate_final_answer_strict u cgpa_value replace_runs m.llm text ranked st in
        (with_answer result ranked tops answer, st')

    searched : Text → Result (RetrievalResult S) × State → Reply S × State
    unfolding with_vectors build_top_filtered_vectors rank_documents_by_query_intent txt
    searched text (err e, st) = (refused 400 (txt "search_failed") (message e), st)
    searched text (ok result, st) =
        let ranked = rank_documents_by_query_intent u cgpa_value f text result.documents in
        with_vectors result text ranked
          (build_top_filtered_vectors u cgpa_value replace_runs f text ranked (pos 5)) st

    -- The steps of both handlers, for the text and the count that the body gave.
    unfoldable pub answer_query : SearchCall → Text → ℤ → State → Reply S × State
    unfolding searched query_of metadata_of txt
    answer_query q raw top_k st =
        let text = trim_space raw in
        let done =
          searched text (search f u m.retrieval (metadata_of q) (query_of q text top_k) st) in
        if is_empty text
        then (refused 400 (txt "query_required") (txt "queryText is required"), st)
        else done

    unfoldable pub handle_search : SearchCall → State → Reply S × State
    unfolding invalid_json answer_query
    handle_search q st =
        on_result (λ e. invalid_json e st)
          (λ body. answer_query q body.0 (if is_nonpos body.1 then pos 5 else body.1) st) q.body

    -- What the stream is made of.
    unfoldable pub handle_search_stream : SearchCall → State → Reply S × State
    unfolding invalid_json answer_query
    handle_search_stream q st =
        on_result (λ e. invalid_json e st) (λ body. answer_query q body.0 (pos 5) st) q.body
