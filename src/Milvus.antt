-- ===== src/Milvus.antt =====
-- internal/adapters/vector/milvus/adapter.go: the vector store over the Milvus client.
--
-- The client is a parameter: each of its calls takes the state `W` of the store to a result and the
-- next state. The adapter's own state is its configuration, the dimension that it has learnt and the
-- last trace; its mutex makes each access one step. How long an operation took is an argument.
pub mod Connection
pub mod Rows
pub mod Collection
pub mod Guards
pub mod Steps
pub mod Operations
use fine_rag_core.Prelude.{ℕ, ℤ, Bool, Option, some, List, ◌∷◌, ◌++◌}
use fine_rag_core.Text.{Text, txt, Unicode}
use fine_rag_core.Result.{Err, Result, ok, err}
use fine_rag_core.Contracts.Audit.{ProviderError}
use fine_rag_core.Contracts.Retrieval.{VectorCallTrace}
use fine_rag_core.Vectors.Errors.{normalize_provider_error}

pub record Config : Type 0 where
  pub endpoint : Text
  pub database : Text
  pub collection : Text
  pub username : Text
  pub password : Text
  pub token : Text
  pub tls : Bool

-- The type of a field of the schema, with its length or its dimension.
pub data FieldType : Type 0 where
  var_char : ℕ → FieldType
  int64 : FieldType
  float_vector : ℤ → FieldType

pub record SchemaField : Type 0 where
  pub name : Text
  pub field_type : FieldType
  pub is_primary_key : Bool

pub record Schema : Type 0 where
  pub name : Text
  pub description : Text
  pub fields : List SchemaField

-- What is read of a field of a collection: its name and its parameter `dim`.
pub record FieldInfo : Type 0 where
  pub name : Text
  pub dim : Option Text

-- A column that is written, with a value for each record.
pub data Column (E : Type 0) : Type 0 where
  texts : Text → List Text → Column E
  numbers : Text → List ℤ → Column E
  vectors : Text → ℤ → List (List E) → Column E

-- A column that is read: `GetAsString`, and `Get` as `fmt.Sprint` shows its value.
pub record ResultColumn : Type 0 where
  pub name : Text
  pub len : ℕ
  pub get_as_string : ℕ → Option Text
  pub get : ℕ → Option Text

pub record SearchResult (E : Type 0) : Type 0 where
  pub result_count : ℕ
  pub ids : Option ResultColumn
  pub fields : List ResultColumn
  pub scores : List E

abbrev pub Call : Type 0 → Type 0 → Type 0
Call W A = W → Result A × W

-- The calls of the client, each for a collection; the two errors are those of `NewIndexAUTOINDEX` and
-- of `NewIndexAUTOINDEXSearchParam`.
pub record Client (W E : Type 0) : Type 0 where
  pub has_collection : Text → Call W Bool
  pub describe_collection : Text → Call W (List FieldInfo)
  pub create_collection : Schema → Call W (Unit {0})
  pub create_index : Text → Text → Call W (Unit {0})
  pub load_collection : Text → Call W (Unit {0})
  pub flush : Text → Call W (Unit {0})
  pub upsert : Text → List (Column E) → Call W (Unit {0})
  pub query : Text → Text → List Text → ℤ → Call W (List ResultColumn)
  pub search : Text → Text → List Text → List E → Text → ℤ → Call W (List (SearchResult E))
  pub delete : Text → Text → Call W (Unit {0})
  pub auto_index : Result (Unit {0})
  pub search_param : Result (Unit {0})

pub record Adapter (W : Type 0) : Type 0 where
  pub cfg : Config
  pub world : W
  pub dim : ℤ
  pub last_trace : VectorCallTrace

-- An operation goes on with a value, or stops with the status of its trace and an error.
pub data Outcome (A : Type 0) : Type 0 where
  done : A → Outcome A
  stopped : Text → Err → Outcome A

abbrev pub M : Type 0 → Type 0 → Type 0
M W A = Adapter W → Outcome A × Adapter W

abbrev pub then_do : {W A B : Type 0} → (A → M W B) → Outcome A × Adapter W → Outcome B × Adapter W
then_do next (done a, s) = next a s
then_do next (stopped status e, s) = (stopped status e, s)

infixl 5 ◌>>=◌ ◌>>◌
abbrev pub ◌>>=◌ : {W B A : Type 0} → M W A → (A → M W B) → M W B
◌>>=◌ m next s = then_do next (m s)

abbrev pub ◌>>◌ : {W B : Type 0} → M W (Unit {0}) → M W B → M W B
m >> k = m >>= λ _. k

abbrev pub pure : {W A : Type 0} → A → M W A
pure a s = (done a, s)

abbrev pub outcome : {A : Type 0} → Text → Result A → Outcome A
outcome status (ok a) = done a
outcome status (err e) = stopped status e

-- A check, or a call of the client, that stops with a status.
abbrev pub checked : {W A : Type 0} → Text → Result A → M W A
checked status r s = (outcome status r, s)

abbrev pub returned : {W A : Type 0} → Text → Adapter W → Result A × W → Outcome A × Adapter W
returned status s (r, w) = (outcome status r, record s { world = w })

abbrev pub call : {W A : Type 0} → Text → (Config → Call W A) → M W A
call status c s = returned status s (c s.cfg s.world)

-- The answer of an operation.
pub data Reply (A : Type 0) : Type 0 where
  answered : A → Reply A
  failed : Option ProviderError → Reply A

abbrev pub last_vector_trace : {W : Type 0} → Adapter W → VectorCallTrace
last_vector_trace a = a.last_trace

unfoldable pub debug_string : {W : Type 0} → Adapter W → Text
unfolding txt
debug_string a = txt "milvus(" ++ (a.cfg.database ++ (b'/' ∷ (a.cfg.collection ++ txt ")")))

-- `markTrace`
unfoldable pub mark_trace : {W : Type 0} → Text → ℤ → Adapter W → Adapter W
unfolding txt
mark_trace status latency a = record a {
  last_trace = record { provider = txt "milvus"; status = status; latency_millis = latency };
}

-- An operation from its start to its return: the trace is marked, and an error is normalized.
module _ (u : Unicode) (is_deadline : Err → Bool) where
  unfoldable pub ended : {W A : Type 0} → Text → ℤ → Outcome A × Adapter W → Reply A × Adapter W
  unfolding mark_trace
  ended op latency (done a, s) = (answered a, mark_trace (txt "ok") latency s)
  ended op latency (stopped status e, s) = (
    failed (normalize_provider_error u is_deadline (txt "milvus") op (some e)),
    mark_trace status latency s,
  )
