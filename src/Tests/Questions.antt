-- ===== src/Tests/Questions.antt =====
-- backend/managers/search.go at concrete inputs.
use fine_rag_core.Prelude.{
  ◌⊎◌, ℕ, ◌≡◌, ◌≢◌, refl, pos, Bool, false, none, some, List, [], ◌∷◌, arith, is_empty,
}
use fine_rag_core.Text
use fine_rag_core.Text.{Text, txt}
use fine_rag_core.Result.{ok}
use fine_rag_core.Sorting.{IsAsymmetric, Rearranged}
use fine_rag_core.Contracts.Tenant
use fine_rag_core.Contracts.Retrieval as Records
use fine_rag_core.Contracts.Retrieval.{RetrievalDocument, RetrievalResult}
use fine_rag_core.Retrieval.{Service}
use fine_rag_core.Retrieval.Search as Searching
use fine_rag_core.Retrieval.Documents
use fine_rag_core.Retrieval.Ranking
use fine_rag_core.Backend.Terms.{tokenize_search_terms, rank_documents_by_query_intent}
use fine_rag_core.Backend.Terms.Order.{Descending, rank-Ordered}
use fine_rag_core.Backend.Answers.{TopVector}
use fine_rag_core.Backend.Search.{
  SearchManager, SearchCall, Reply, refused, panicked, found, handle_search,
}
use fine_rag_core.Backend.Search.Answered.{Answered}
use fine_rag_core.Tests.Search.{plain, whole, service, fresh, document}

-- A retrieval service with one document for a tenant.
abbrev plainly : Service ℕ ℕ
plainly = record service {
  searcher = some record {
    search = λ turn t text k. ok (document t (txt "a") ∷ []);
    search_by_embedding = none;
    last_vector_trace = none;
  };
  reranker = none;
}

abbrev no_cgpa : Text → Bool
no_cgpa t = false

abbrev unchanged : (Text → Text) → Text → Text
unchanged f t = t

abbrev manager : SearchManager ℕ ℕ
manager = record { retrieval = plainly; llm = some (λ turn query context. ok (txt " an answer")) }

abbrev question : SearchCall
question = record {
  tenant_header = txt "t ";
  body = ok (txt "what", pos 3);
  request_id = txt "r";
  random8 = [];
  source_ip = [];
  user_agent = [];
}

abbrev asked : Reply ℕ
asked = (handle_search plain no_cgpa unchanged whole manager question fresh).0

-- The result of the search, and the parts of the reply that are made from it.
abbrev nothing : RetrievalResult ℕ
nothing = record {
  tenant_id = [];
  request_id = [];
  documents = [];
  citations = [];
  trace = record {
    tenant_filter_applied = false;
    candidate_count = 0;
    rerank_applied = false;
    fallback_reason = [];
    duration_millis = pos 0;
    vector_provider = [];
    vector_status = [];
    vector_latency_millis = pos 0;
    gateway_provider = [];
    gateway_status = [];
    gateway_model = [];
    gateway_latency_millis = pos 0;
    gateway_token_input = pos 0;
    gateway_token_output = pos 0;
    gateway_token_total = pos 0;
  };
}

abbrev result_in : Reply ℕ → RetrievalResult ℕ
result_in (refused code name text) = nothing
result_in panicked = nothing
result_in (found result ranked tops answer) = result

abbrev ranked_in : Reply ℕ → List (RetrievalDocument ℕ)
ranked_in (refused code name text) = []
ranked_in panicked = []
ranked_in (found result ranked tops answer) = ranked

abbrev tops_in : Reply ℕ → List (TopVector ℕ)
tops_in (refused code name text) = []
tops_in panicked = []
tops_in (found result ranked tops answer) = tops

abbrev scored : Text → ℕ → RetrievalDocument ℕ
scored id score = record (document (txt "t") id) { score = score }

abbrev two : List (RetrievalDocument ℕ)
two = scored (txt "a") 1 ∷ scored (txt "b") 2 ∷ []

whole-IsAsymmetric : IsAsymmetric whole.gt
whole-IsAsymmetric a b h = ground arith

terms_found : is_empty (tokenize_search_terms plain (txt "alpha")) ≡ false
unfolding tokenize_search_terms txt Text.to_lower Text.trim_space Text.trim_right Text.trim_left
    Text.is_space Text.fields Text.fields_from Text.lower_rune Text.byte_len Text.width
terms_found = refl

rank-Ordered_example :
    Rearranged (rank_documents_by_query_intent plain no_cgpa whole (txt "alpha") two) two
    × (((tokenize_search_terms plain (txt "alpha") ≡ [])
          × (rank_documents_by_query_intent plain no_cgpa whole (txt "alpha") two ≡ two))
        ⊎ ((tokenize_search_terms plain (txt "alpha") ≢ [])
            × Descending plain no_cgpa whole
                (tokenize_search_terms plain (txt "alpha"))
                (rank_documents_by_query_intent plain no_cgpa whole (txt "alpha") two)))
rank-Ordered_example = rank-Ordered plain no_cgpa whole (txt "alpha") two whole-IsAsymmetric
