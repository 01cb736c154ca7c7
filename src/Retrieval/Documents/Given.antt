-- ===== src/Retrieval/Documents/Given.antt =====
-- internal/services/retrieval/service.go: what the vector store gives for a query, as a list of its
-- answers, and what `searchDocuments` keeps of it.
use fine_rag_core.Prelude.{
  ℕ, ◌+◌, ◌≡◌, refl, sym, ap, ◌∙◌, ℤ, Bool, false, not, ◌&&◌, Option, none, some, List, [], ◌∷◌,
  ◌++◌, append_assoc, append-nil, any_of, keep, Bool-cases, inl, inr, arith,
}
use fine_rag_core.Text.{Text, str_eq, str_eq→eq}
use fine_rag_core.Result.{Result, ok, err}
use fine_rag_core.Contracts.Tenant.{TenantId}
use fine_rag_core.Contracts.Retrieval.{RetrievalQuery, StructuredQuery, RetrievalDocument}
use fine_rag_core.Retrieval.{Searcher, Service, State, next_turn}
use fine_rag_core.Retrieval.Documents.{
  add_unseen, collected, ask, by_vector, embedded, collect, expand, rewritten, search_documents,
}

module _ {S : Type 0} where
  -- Another document than `d`.
  abbrev pub other_than : RetrievalDocument S → RetrievalDocument S → Bool
  other_than d e = not (str_eq d.document_id e.document_id)

  -- Of each id the first document.
  abbrev pub firsts : List (RetrievalDocument S) → List (RetrievalDocument S)
  firsts [] = []
  firsts (d ∷ ds) = d ∷ keep (other_than d) (firsts ds)

  -- The documents of an answer; a failure gives none.
  abbrev pub documents_in : Result (List (RetrievalDocument S)) → List (RetrievalDocument S)
  documents_in (err e) = []
  documents_in (ok docs) = docs

-- The texts that are asked for: those of the rewriter, or that of the query if it fails.
abbrev pub texts_from : RetrievalQuery → Result StructuredQuery → List Text
texts_from q (err e) = q.query_text ∷ []
texts_from q (ok r) = r.expanded_queries

-- What is embedded of a text, and what the store answers for the vector: the documents, and the turn of
-- the next call. More than one vector, none or an empty one is passed over.
module _ {S E : Type 0} (q : RetrievalQuery) where
  abbrev pub for_vector :
      (ℕ → TenantId → List E → ℤ → Result (List (RetrievalDocument S)))
      → ℕ
      → Result (List (List E))
      → Result (List (RetrievalDocument S)) × ℕ
  for_vector search turn (err e) = (err e, turn)
  for_vector search turn (ok []) = (ok [], turn)
  for_vector search turn (ok ([] ∷ vs)) = (ok [], turn)
  for_vector search turn (ok ((x ∷ xs) ∷ v ∷ vs)) = (ok [], turn)
  for_vector search turn (ok ((x ∷ xs) ∷ [])) = (search turn q.tenant_id (x ∷ xs) q.top_k, turn + 1)

  -- What the store answers for a text at a turn: by its vector if both can be done, else by the text.
  abbrev pub for_text :
      Searcher S E
      → Option (ℕ → TenantId → List E → ℤ → Result (List (RetrievalDocument S)))
      → Option (ℕ → TenantId → List Text → Result (List (List E)))
      → ℕ
      → Text
      → Result (List (RetrievalDocument S)) × ℕ
  for_text k none embedder turn text = (k.search turn q.tenant_id text q.top_k, turn + 1)
  for_text k (some search) none turn text = (k.search turn q.tenant_id text q.top_k, turn + 1)
  for_text k (some search) (some embed) turn text =
      for_vector search (turn + 1) (embed turn q.tenant_id (text ∷ []))

  module _ (k : Searcher S E) (s : Service S E) where
    -- All that the store gives for some texts, one after the other.
    abbrev pub all_given : ℕ → List Text → List (RetrievalDocument S)
    all_given turn [] = []
    all_given turn (text ∷ texts) =
        let (answer, next) = for_text k k.search_by_embedding s.embedder turn text in
        documents_in answer ++ all_given next texts

    -- All that the store gives for the query from a turn on, at which the rewriter is called.
    abbrev pub rewritten_given :
        Option (ℕ → TenantId → Text → Result StructuredQuery) → ℕ → List (RetrievalDocument S)
    rewritten_given none turn = all_given turn (q.query_text ∷ [])
    rewritten_given (some rewrite) turn =
        all_given (turn + 1) (texts_from q (rewrite turn q.tenant_id q.query_text))

    abbrev pub given_from : ℕ → List (RetrievalDocument S)
    given_from turn = rewritten_given s.query_rewriter turn

module _ {ℓ} {A : Type ℓ} (p q : A → Bool) where
  keep-absorb :
      ((x : A) → q x ≡ false → p x ≡ false) → (xs : List A) → keep p (keep q xs) ≡ keep p xs
  keep-absorb h [] = refl
  keep-absorb h (x ∷ xs) = elim (Bool-cases (q x)) [
    | inl e ↦ rw (e, keep-absorb h xs) refl
    | inr e ↦ rw (e, h x e, keep-absorb h xs) refl
  ]

  keep-both :
      (r : A → Bool)
      → ((x : A) → r x ≡ (q x && p x))
      → (xs : List A) → keep r xs ≡ keep p (keep q xs)
  keep-both r h [] = refl
  keep-both r h (x ∷ xs) = elim (Bool-cases (q x)) [
    | inl e ↦ rw (h x, e, keep-both r h xs) refl
    | inr e ↦ rw (h x, e, keep-both r h xs) refl
  ]

module _ {S E : Type 0} (s : Service S E) where
  -- No document of `all` has the id of `d`.
  abbrev unseen : List (RetrievalDocument S) → RetrievalDocument S → Bool
  unseen all d = not (any_of (λ (e : RetrievalDocument S). str_eq e.document_id d.document_id) all)

  unseen-snoc :
      (all : List (RetrievalDocument S)) (d x : RetrievalDocument S)
      → unseen (all ++ d ∷ []) x ≡ (other_than d x && unseen all x)
  unseen-snoc [] d x = ground arith
  unseen-snoc (e ∷ all) d x = ground (arith, unseen-snoc all d x)

  seen-same :
      (all : List (RetrievalDocument S)) (d x : RetrievalDocument S)
      → unseen all d ≡ false
      → other_than d x ≡ false
      → unseen all x ≡ false
  seen-same all d x seen same =
      let eq = str_eq→eq d.document_id x.document_id (ground arith) in
      ap (λ i. not (any_of (λ (e : RetrievalDocument S). str_eq e.document_id i) all)) (sym eq)
      ∙ seen

  add_unseen-firsts :
      (all ds : List (RetrievalDocument S))
      → add_unseen s all ds ≡ all ++ keep (unseen all) (firsts ds)
  unfolding add_unseen
  add_unseen-firsts all [] = sym (append-nil all)
  add_unseen-firsts all (d ∷ ds) =
      elim (Bool-cases
        (any_of (λ (e : RetrievalDocument S). str_eq e.document_id d.document_id) all)) [
          | inl e ↦ rw e (
              add_unseen-firsts all ds
              ∙ ap (λ l. all ++ l)
                  (sym (
                    keep-absorb (unseen all) (other_than d)
                      (λ x same. seen-same all d x (rw e refl) same) (firsts ds))))
          | inr e ↦ rw e (
              add_unseen-firsts (all ++ d ∷ []) ds
              ∙ (append_assoc all (d ∷ []) _
                  ∙ ap (λ l. all ++ d ∷ l)
                      (keep-both (unseen all) (other_than d) (unseen (all ++ d ∷ []))
                        (unseen-snoc all d) (firsts ds))))
        ]

  add_unseen-append :
      (all xs ys : List (RetrievalDocument S))
      → add_unseen s all (xs ++ ys) ≡ add_unseen s (add_unseen s all xs) ys
  unfolding add_unseen
  add_unseen-append all [] ys = refl
  add_unseen-append all (d ∷ xs) ys =
      elim (Bool-cases
        (any_of (λ (e : RetrievalDocument S). str_eq e.document_id d.document_id) all)) [
          | inl e ↦ rw e (add_unseen-append all xs ys)
          | inr e ↦ rw e (add_unseen-append (all ++ d ∷ []) xs ys)
        ]

  -- A call asks for what it should.
  abbrev Agrees :
      Result (List (RetrievalDocument S)) × State → Result (List (RetrievalDocument S)) × ℕ → Type 0
  Agrees (answer, st) (expected, next) = (answer ≡ expected) × (st.turn ≡ next)

  embedded-Agrees :
      (search : ℕ → TenantId → List E → ℤ → Result (List (RetrievalDocument S)))
      (q : RetrievalQuery) (st : State) (r : Result (List (List E)))
      → Agrees (embedded s search q st r) (for_vector q search st.turn r)
  unfolding embedded by_vector
  embedded-Agrees search q st (err e) = (refl, refl)
  embedded-Agrees search q st (ok []) = (refl, refl)
  embedded-Agrees search q st (ok ([] ∷ [])) = (refl, refl)
  embedded-Agrees search q st (ok ([] ∷ v ∷ vs)) = (refl, refl)
  embedded-Agrees search q st (ok ((x ∷ xs) ∷ [])) = (refl, refl)
  embedded-Agrees search q st (ok ((x ∷ xs) ∷ v ∷ vs)) = (refl, refl)

  ask-Agrees :
      (k : Searcher S E)
      (o : Option (ℕ → TenantId → List E → ℤ → Result (List (RetrievalDocument S))))
      (p : Option (ℕ → TenantId → List Text → Result (List (List E)))) (q : RetrievalQuery)
      (text : Text) (st : State)
      → Agrees (ask s k o p q text st) (for_text q k o p st.turn text)
  unfolding ask
  ask-Agrees k none none q text st = (refl, refl)
  ask-Agrees k none (some embed) q text st = (refl, refl)
  ask-Agrees k (some search) none q text st = (refl, refl)
  ask-Agrees k (some search) (some embed) q text st =
      embedded-Agrees search q (next_turn st) (embed st.turn q.tenant_id (text ∷ []))

  collected-documents_in :
      (all : List (RetrievalDocument S)) (r : Result (List (RetrievalDocument S)))
      → collected s all r ≡ add_unseen s all (documents_in r)
  unfolding collected add_unseen
  collected-documents_in all (err e) = refl
  collected-documents_in all (ok docs) = refl

  collect-all_given :
      (k : Searcher S E) (q : RetrievalQuery) (texts : List Text) (all : List (RetrievalDocument S))
      (st : State)
      → (collect s k q texts all st).0 ≡ add_unseen s all (all_given q k s st.turn texts)
  unfolding collect
  collect-all_given k q [] all st = unfold add_unseen in refl
  collect-all_given k q (text ∷ texts) all st =
      let (answer, st') = ask s k k.search_by_embedding s.embedder q text st in
      let (expected, next) = for_text q k k.search_by_embedding s.embedder st.turn text in
      let (same, turns) = ask-Agrees k k.search_by_embedding s.embedder q text st in
      collect-all_given k q texts (collected s all answer) st'
      ∙ (ap (λ a. add_unseen s a (all_given q k s st'.turn texts))
            (collected-documents_in all answer)
          ∙ (sym (add_unseen-append all (documents_in answer) (all_given q k s st'.turn texts))
              ∙ (ap (λ a. add_unseen s all (documents_in a ++ all_given q k s st'.turn texts)) same
                  ∙ ap (λ t. add_unseen s all (documents_in expected ++ all_given q k s t texts))
                      turns)))

  -- With nothing before it, a list keeps of each id the first document.
  add_unseen-all : (ds : List (RetrievalDocument S)) → add_unseen s [] ds ≡ firsts ds
  add_unseen-all ds = add_unseen-firsts [] ds ∙ kept (firsts ds)
    where
      kept : (xs : List (RetrievalDocument S)) → keep (unseen []) xs ≡ xs
      kept [] = refl
      kept (x ∷ xs) = ap (λ l. x ∷ l) (kept xs)

  -- What is found is, of each id, the first document that the store gives for any of the texts.
  pub search_documents-given :
      (k : Searcher S E) (q : RetrievalQuery) (st : State)
      → (search_documents s k q st).0.0 ≡ firsts (given_from q k s st.turn)
  unfolding search_documents
  search_documents-given k q st = by_rewriter s.query_rewriter
    where
      found :
          (texts : List Text) (st : State)
          → (collect s k q texts [] st).0 ≡ firsts (all_given q k s st.turn texts)
      found texts st =
          collect-all_given k q texts [] st ∙ add_unseen-all (all_given q k s st.turn texts)

      by_answer :
          (r : Result StructuredQuery)
          → (collect s k q (rewritten s q r).expanded_queries [] (next_turn st)).0
            ≡ firsts (all_given q k s (st.turn + 1) (texts_from q r))
      by_answer (err e) = unfold rewritten in found (q.query_text ∷ []) (next_turn st)
      by_answer (ok r) = unfold rewritten in found r.expanded_queries (next_turn st)

      by_rewriter :
          (o : Option (ℕ → TenantId → Text → Result StructuredQuery))
          → (let (expanded, st') = expand s o q st in
              (collect s k q expanded.expanded_queries [] st').0)
            ≡ firsts (rewritten_given q k s o st.turn)
      by_rewriter none = unfold expand in found (q.query_text ∷ []) st
      by_rewriter (some rewrite) =
          unfold expand in by_answer (rewrite st.turn q.tenant_id q.query_text)
