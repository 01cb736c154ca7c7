-- ===== src/Retrieval/Search.antt =====
-- internal/services/retrieval/service.go: `rerankDocuments` and `Search`.
pub mod Isolation
pub mod Total
use Prim.Native.Nat.{min}
use fine_rag_core.Prelude.{
  ℕ, zero, suc, ◌-◌, ◌/◌, ℤ, pos, negsuc, max_int, Bool, true, false, not, ◌&&◌, Option, none, some,
  List, [], ◌∷◌, map, keep, take, length, is_empty, leb, if◌then◌else◌,
}
use fine_rag_core.Text.{Text, txt, str_eq, Unicode}
use fine_rag_core.Result.{Err, new, message, Result, ok, err, ◌>>=◌, ◌>>◌, reject_if, map_err}
use fine_rag_core.Dict.{Dict, lookup, insert, get_or_zero}
use fine_rag_core.Contracts.Tenant.{
  Time, RequestMetadata, validate_request_metadata, wrap_validation_err,
}
use fine_rag_core.Contracts.Retrieval.{
  Float64, RetrievalQuery, validate_retrieval_query, StructuredQuery, RetrievalDocument,
  RetrievalTrace, VectorCallTrace, GatewayCallTrace, RetrievalResult, validate_retrieval_result,
  RerankCandidate, RerankRequest,
}
use fine_rag_core.Sorting.{sort_stable}
use fine_rag_core.Retrieval.{Searcher, Reranker, Service, State, next_turn, Ranked, rerank}
use fine_rag_core.Retrieval.Documents.{search_documents}
use fine_rag_core.Retrieval.Ranking.{apply_metadata_intent_ranking, build_citations}

-- `end.Sub(start).Milliseconds()`; `Sub` stops at the ends of an `int64`.
negated : ℕ → ℤ
negated zero = pos 0
negated (suc n) = negsuc n

millis : ℕ → ℕ
millis d = min d max_int / 1_000_000

unfoldable pub millis_between : Time → Time → ℤ
unfolding negated millis
millis_between start end =
    if leb start end then pos (millis (end - start)) else negated (millis (start - end))

module _ {S E : Type 0} (f : Float64 S) (u : Unicode) (s : Service S E) where
  to_candidate : RetrievalDocument S → RerankCandidate S
  to_candidate d = record {
    document_id = d.document_id;
    candidate_text = d.content;
    score = d.score;
  }

  -- `scoreByDocument`; a later candidate of the same document replaces an earlier one. The score of
  -- a candidate counts those from it to the end.
  scores_of : Dict S → List (RerankCandidate S) → Dict S
  scores_of m [] = m
  scores_of m (c ∷ cs) =
      scores_of (insert c.document_id (f.add (f.of_int (length (c ∷ cs))) c.score) m) cs

  ranked_before : Dict S → RetrievalDocument S → RetrievalDocument S → Bool
  ranked_before m a b =
      let x = get_or_zero (f.of_int 0) (lookup a.document_id m) in
      let y = get_or_zero (f.of_int 0) (lookup b.document_id m) in
      if f.eq x y then f.gt a.score b.score else f.gt x y

  reordered :
      List (RetrievalDocument S)
      → Ranked S × State
      → (List (RetrievalDocument S) × Option Err) × State
  unfolding scores_of ranked_before
  reordered docs ((ranked, some e), st) = ((docs, some e), st)
  reordered docs ((ranked, none), st) =
      ((sort_stable (ranked_before (scores_of [] ranked)) docs, none), st)

  request_of : RetrievalQuery → List (RerankCandidate S) → RerankRequest S
  request_of q candidates = record {
    tenant_id = q.tenant_id;
    request_id = q.request_id;
    query_text = q.query_text;
    candidates = candidates;
    top_n = pos (length candidates);
  }

  metadata_of : RetrievalQuery → RequestMetadata
  metadata_of q = record {
    tenant_id = q.tenant_id;
    request_id = q.request_id;
    source_ip = [];
    user_agent = [];
  }

  rerank_present :
      Option (Reranker S)
      → RetrievalQuery
      → List (RetrievalDocument S)
      → State
      → (List (RetrievalDocument S) × Option Err) × State
  unfolding to_candidate reordered request_of metadata_of
  rerank_present none q docs st = ((docs, none), st)
  rerank_present (some k) q docs st =
      let candidates = map to_candidate (take s.rerank_top_k docs) in
      if is_empty candidates
      then ((docs, none), st)
      else reordered docs (rerank f s (metadata_of q) (request_of q candidates) st)

  -- The documents in their new order, or as they were with the error.
  unfoldable pub rerank_documents :
      RetrievalQuery
      → List (RetrievalDocument S)
      → State
      → (List (RetrievalDocument S) × Option Err) × State
  unfolding rerank_present
  rerank_documents q docs st = rerank_present s.reranker q docs st

  -- Where there is no document, none is asked for.
  rerank_nonempty :
      RetrievalQuery
      → List (RetrievalDocument S)
      → State
      → (List (RetrievalDocument S) × Option Err) × State
  unfolding rerank_documents
  rerank_nonempty q docs st =
      if is_empty docs then ((docs, none), st) else rerank_documents q docs st

  abbrev pub owned : RetrievalQuery → RetrievalDocument S → Bool
  owned q d = str_eq d.tenant_id q.tenant_id

  ranking_query : RetrievalQuery → List Text → Text
  ranking_query q [] = q.query_text
  ranking_query q (text ∷ texts) = text

  -- From the documents of the search to those of the result, with the error of the reranker.
  unfoldable pub arrange :
      RetrievalQuery
      → List (RetrievalDocument S) × StructuredQuery
      → State
      → (List (RetrievalDocument S) × Option Err) × State
  unfolding rerank_nonempty ranking_query
  arrange q (docs, expanded) st =
      rerank_nonempty q
        (apply_metadata_intent_ranking u f (ranking_query q expanded.expanded_queries)
          (keep (owned q) docs))
        st

  vector_trace : Option (ℕ → VectorCallTrace) → ℕ → VectorCallTrace
  vector_trace none turn = record { provider = []; status = []; latency_millis = pos 0 }
  vector_trace (some last) turn = last turn

  gateway_trace_by : Option (ℕ → GatewayCallTrace) → ℕ → GatewayCallTrace
  gateway_trace_by none turn = record {
    provider = [];
    model = [];
    latency_millis = pos 0;
    token_input = pos 0;
    token_output = pos 0;
    token_total = pos 0;
    status = [];
    fallback_reason = [];
  }
  gateway_trace_by (some last) turn = last turn

  gateway_trace : Option (Reranker S) → ℕ → GatewayCallTrace
  unfolding gateway_trace_by
  gateway_trace none turn = gateway_trace_by none turn
  gateway_trace (some k) turn = gateway_trace_by k.last_gateway_trace turn

  reason_of : Option Err → Text
  reason_of none = []
  reason_of (some e) = message e

  abbrev is_none {ℓ} : {A : Type ℓ} → Option A → Bool
  is_none none = true
  is_none (some a) = false

  trace_of : Searcher S E → Time → List (RetrievalDocument S) → Option Err → ℕ → RetrievalTrace
  unfolding vector_trace gateway_trace reason_of
  trace_of k start docs failed turn =
      let vt = vector_trace k.last_vector_trace turn in
      let gt = gateway_trace s.reranker turn in
      let reason = reason_of failed in
      record {
        tenant_filter_applied = true;
        candidate_count = length docs;
        rerank_applied = not (is_empty docs) && is_none failed && not (is_none s.reranker);
        fallback_reason = if is_empty reason then gt.fallback_reason else reason;
        duration_millis = millis_between start (s.clock turn);
        vector_provider = vt.provider;
        vector_status = vt.status;
        vector_latency_millis = vt.latency_millis;
        gateway_provider = gt.provider;
        gateway_status = gt.status;
        gateway_model = gt.model;
        gateway_latency_millis = gt.latency_millis;
        gateway_token_input = gt.token_input;
        gateway_token_output = gt.token_output;
        gateway_token_total = gt.token_total;
      }

  unfoldable pub result_of :
      Searcher S E
      → RetrievalQuery
      → Time
      → (List (RetrievalDocument S) × Option Err) × State
      → RetrievalResult S
  unfolding trace_of
  result_of k q start ((docs, failed), st) = record {
    tenant_id = q.tenant_id;
    request_id = q.request_id;
    documents = docs;
    citations = build_citations docs;
    trace = trace_of k start docs failed st.turn;
  }

  checked : RetrievalResult S → Result (RetrievalResult S)
  checked r = do
    map_err (wrap_validation_err (txt "retrieval_result")) (validate_retrieval_result r)
    ok r

  -- The guards of `Search`.
  unfoldable pub admit_search : RequestMetadata → RetrievalQuery → Result (Searcher S E)
  admit_search m q = do
    map_err (wrap_validation_err (txt "request_metadata")) (validate_request_metadata m)
    map_err (wrap_validation_err (txt "retrieval_query")) (validate_retrieval_query q)
    reject_if (not (str_eq m.tenant_id q.tenant_id))
        (new (txt "tenant mismatch between metadata and retrieval query"))
    elim s.searcher [ none ↦ err (new (txt "vector searcher is required")) | some k ↦ ok k ]

  search_admitted :
      Result (Searcher S E) → RetrievalQuery → Time → State → Result (RetrievalResult S) × State
  unfolding search_documents arrange result_of checked
  search_admitted (err e) q start st = (err e, st)
  search_admitted (ok k) q start st =
      let (found, st') = search_documents s k q st in
      let arranged = arrange q found st' in (checked (result_of k q start arranged), arranged.1)

  -- The clock is read at the start, which takes a turn.
  unfoldable pub search :
      RequestMetadata → RetrievalQuery → State → Result (RetrievalResult S) × State
  unfolding admit_search search_admitted
  search m q st = search_admitted (admit_search m q) q (s.clock st.turn) (next_turn st)
