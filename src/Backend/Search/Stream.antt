-- ===== src/Backend/Search/Stream.antt =====
-- backend/managers/search.go: the events that `HandleSearchStream` sends.
use fine_rag_core.Prelude.{ℤ, Bool, true, false, List, [], ◌∷◌, ◌++◌, map, ◌⊎◌, inl, inr}
use fine_rag_core.Text.{Text, txt, fields}
use fine_rag_core.Contracts.Retrieval.{RetrievalDocument, RetrievalResult}
use fine_rag_core.Backend.Answers.{TopVector}
use fine_rag_core.Backend.Search.{Reply, refused, panicked, found}

pub record Citation : Type 0 where
  pub id : Text
  pub title : Text
  pub uri : Text

pub record StreamTrace : Type 0 where
  pub request_id : Text
  pub retrieval_ms : ℤ
  pub rerank_applied : Bool

pub data StreamEvent (S : Type 0) : Type 0 where
  top_vectors : List (TopVector S) → StreamEvent S
  token : Text → StreamEvent S
  citation : Citation → StreamEvent S
  trace : StreamTrace → StreamEvent S
  done : List Citation → StreamTrace → List (TopVector S) → StreamEvent S

module _ {S : Type 0} where
  citation_of : RetrievalDocument S → Citation
  unfolding txt
  citation_of d = record { id = d.document_id; title = txt "Source"; uri = d.source_uri }

  stream_trace : RetrievalResult S → StreamTrace
  stream_trace r = record {
    request_id = r.request_id;
    retrieval_ms = r.trace.duration_millis;
    rerank_applied = r.trace.rerank_applied;
  }

  -- The events of a stream, in order; a writer that cannot flush gets an error in place of them.
  unfoldable pub events_of : Bool → Reply S → Reply S ⊎ List (StreamEvent S)
  unfolding citation_of stream_trace txt
  events_of flushes (refused code name text) = inl (refused code name text)
  events_of flushes panicked = inl panicked
  events_of false (found result ranked tops answer) =
      inl (refused 500 (txt "sse_unsupported") (txt "stream unsupported"))
  events_of true (found result ranked tops answer) =
      let citations = map citation_of ranked in
      let last = stream_trace result in
      inr (
        top_vectors tops
        ∷ (map (λ t. token (t ++ txt " ")) (fields answer)
            ++ (map citation citations ++ (trace last ∷ done citations last tops ∷ []))))
