-- ===== src/Gateway.antt =====
-- internal/adapters/gateway: the rerankers that call an external model over HTTP.
--
-- The n-th call of a client has an answer of its own, so a function takes the turn, a count of the
-- calls that were made. JSON and HTTP are parameters.
pub mod Portkey
pub mod Cohere
pub mod Known
use fine_rag_core.Prelude.{
  ℕ, ℤ, pos, negsuc, Bool, not, ◌&&◌, Option, none, some, List, [], ◌∷◌, ltb, leb, ◌==◌, is_empty,
  get_elem?, if◌then◌else◌,
}
use fine_rag_core.Text.{Text}
use fine_rag_core.Result.{Err, Result}
use fine_rag_core.Dict.{Dict}
use fine_rag_core.Contracts.Retrieval.{RerankCandidate}

-- The fields of the JSON body of a request.
pub record RerankBody : Type 0 where
  pub model : Text
  pub query : Text
  pub documents : List Text
  pub top_n : Option ℤ

pub record HttpRequest : Type 0 where
  pub url : Text
  pub headers : Dict Text
  pub body : Text

pub record HttpResponse : Type 0 where
  pub status_code : ℕ
  pub body : Text

-- What the code reads of a response: an index and a score for each result, and the units used.
pub record RerankPayload (S : Type 0) : Type 0 where
  pub results : List (ℤ × S)
  pub units : ℤ

-- `new_request` is the error of `http.NewRequestWithContext` for a URL.
pub record Http (S : Type 0) : Type 0 where
  pub marshal : RerankBody → Result Text
  pub new_request : Text → Option Err
  pub send : ℕ → HttpRequest → Result HttpResponse
  pub decode : Text → Result (RerankPayload S)

-- `status < 200 || status >= 300`
abbrev pub is_refused : HttpResponse → Bool
is_refused r = not (leb 200 r.status_code && ltb r.status_code 300)

-- `strings.TrimRight(s, "/")`
unfoldable pub trim_slashes : Text → Text
trim_slashes [] = []
trim_slashes (c ∷ s) =
    let rest = trim_slashes s in if c == b'/' && is_empty rest then [] else c ∷ rest

module _ {S : Type 0} where
  unfoldable pub texts_of : List (RerankCandidate S) → List Text
  texts_of [] = []
  texts_of (c ∷ cs) = c.candidate_text ∷ texts_of cs

  -- The candidate that a result is about; an index out of range is passed over.
  abbrev pub candidate_at : List (RerankCandidate S) → ℤ → Option (RerankCandidate S)
  candidate_at cs (pos i) = get_elem? cs i
  candidate_at cs (negsuc i) = none

  abbrev pub with_score :
      Option (RerankCandidate S) → S → List (RerankCandidate S) → List (RerankCandidate S)
  with_score none score rest = rest
  with_score (some original) score rest = record original { score = score } ∷ rest

  -- The loop over the results.
  unfoldable pub picked : List (RerankCandidate S) → List (ℤ × S) → List (RerankCandidate S)
  picked cs [] = []
  picked cs ((index, score) ∷ rs) = with_score (candidate_at cs index) score (picked cs rs)
