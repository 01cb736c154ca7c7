-- ===== src/Ingestion/Queue.antt =====
-- internal/services/ingestion/queue_provider.go: the queue in memory, and the choice of a provider.
-- `quote` is the verb `%q` of `fmt`.
pub mod Fifo
use fine_rag_core.Prelude.{
  Bool, true, false, not, ◌||◌, Option, none, some, List, [], ◌∷◌, ◌++◌, if◌then◌else◌, is_empty,
}
use fine_rag_core.Text.{Text, txt, str_eq, trim_space, Unicode, to_lower, is_blank}
use fine_rag_core.Result.{Err, new, Result, ok, err, ◌>>=◌, ◌>>◌, reject_if}
use fine_rag_core.Contracts.Job.{QueueMessage}

pub record QueueProviderConfig : Type 0 where
  pub provider : Text
  pub aws_region : Text
  pub queue_url : Text
  pub dlq_url : Text
  pub message_group_id : Text
  pub local_fallback_mode : Bool

-- `getEnv`: a variable that is not set reads as "".
abbrev pub get_env : (Text → Option Text) → Text → Text
get_env lookup_env key = elim (lookup_env key) [ none ↦ [] | some v ↦ v ]

provider_of : Unicode → Option Text → Text
provider_of u none = txt "memory"
provider_of u (some v) = if is_blank v then txt "memory" else to_lower u (trim_space v)

-- `strings.EqualFold(strings.TrimSpace(v), "false")`
fallback_of : (Text → Text → Bool) → Option Text → Bool
fallback_of equal_fold none = true
fallback_of equal_fold (some v) = not (equal_fold (trim_space v) (txt "false"))

-- `strings.EqualFold` is an argument.
unfoldable pub load_queue_provider_config_from_env :
    Unicode → (Text → Text → Bool) → (Text → Option Text) → QueueProviderConfig
unfolding provider_of fallback_of
load_queue_provider_config_from_env u equal_fold lookup_env =
    let group = trim_space (get_env lookup_env (txt "FINE_RAG_SQS_MESSAGE_GROUP_ID")) in
    record {
      provider = provider_of u (lookup_env (txt "FINE_RAG_QUEUE_PROVIDER"));
      aws_region = trim_space (get_env lookup_env (txt "AWS_REGION"));
      queue_url = trim_space (get_env lookup_env (txt "FINE_RAG_SQS_QUEUE_URL"));
      dlq_url = trim_space (get_env lookup_env (txt "FINE_RAG_SQS_DLQ_URL"));
      message_group_id = if is_empty group then txt "ingestion-jobs" else group;
      local_fallback_mode =
          fallback_of equal_fold (lookup_env (txt "FINE_RAG_QUEUE_LOCAL_FALLBACK"));
    }

abbrev pub is_memory : Text → Bool
is_memory p = is_empty p || str_eq p (txt "memory")

unfoldable pub validate_queue_provider_config :
    (Text → Text) → QueueProviderConfig → Result (Unit {0})
validate_queue_provider_config quote c =
    if is_memory c.provider
    then ok tt
    else if str_eq c.provider (txt "sqs")
    then (do
      reject_if (is_empty c.aws_region)
          (new (txt "AWS_REGION is required when FINE_RAG_QUEUE_PROVIDER=sqs"))
      reject_if (is_empty c.queue_url)
          (new (txt "FINE_RAG_SQS_QUEUE_URL is required when FINE_RAG_QUEUE_PROVIDER=sqs"))
      reject_if (is_empty c.dlq_url)
          (new (txt "FINE_RAG_SQS_DLQ_URL is required when FINE_RAG_QUEUE_PROVIDER=sqs")))
    else err (new (txt "unsupported FINE_RAG_QUEUE_PROVIDER " ++ quote c.provider))

-- The queue in memory. The mutex makes each method one step.
pub record InMemoryQueueAdapter : Type 0 where
  pub messages : List QueueMessage
  pub dlq : List QueueMessage

unfoldable pub new_in_memory_queue_adapter : InMemoryQueueAdapter
new_in_memory_queue_adapter = record { messages = []; dlq = [] }

unfoldable pub err_queue_empty : Err
err_queue_empty = new (txt "ingestion queue empty")

-- `Enqueue` and `Publish` return no error.
unfoldable pub enqueue : QueueMessage → InMemoryQueueAdapter → InMemoryQueueAdapter
enqueue m q = record q { messages = q.messages ++ m ∷ [] }

unfoldable pub publish : QueueMessage → InMemoryQueueAdapter → InMemoryQueueAdapter
publish m q = record q { dlq = q.dlq ++ m ∷ [] }

pop : List QueueMessage → InMemoryQueueAdapter → Result QueueMessage × InMemoryQueueAdapter
pop [] q = (err err_queue_empty, q)
pop (m ∷ ms) q = (ok m, record q { messages = ms })

unfoldable pub dequeue : InMemoryQueueAdapter → Result QueueMessage × InMemoryQueueAdapter
unfolding pop
dequeue q = pop q.messages q

-- Which adapters `BuildQueueAdapters` returns; its fourth result names them.
pub data Provider : Type 0 where
  memory memory_fallback sqs : Provider

unfoldable pub provider_name : Provider → Text
provider_name memory = txt "memory"
provider_name memory_fallback = txt "memory-fallback"
provider_name sqs = txt "sqs"

fall_back : Bool → Err → Result Provider
fall_back true e = ok memory_fallback
fall_back false e = err e

-- `NewSQSQueueAdapter`, as far as it can fail
unfoldable pub new_sqs_queue_adapter :
    (Text → Text) → Bool → QueueProviderConfig → Result (Unit {0})
unfolding validate_queue_provider_config
new_sqs_queue_adapter quote has_client c = do
  reject_if (not has_client) (new (txt "sqs client is required"))
  validate_queue_provider_config quote c

connected : Bool → Bool → Result (Unit {0}) → Result Provider
unfolding fall_back
connected local_fallback has_client (ok _) = ok sqs
connected local_fallback has_client (err e) = fall_back local_fallback e

unfoldable pub build_queue_adapters : (Text → Text) → QueueProviderConfig → Bool → Result Provider
unfolding validate_queue_provider_config new_sqs_queue_adapter connected
build_queue_adapters quote c has_client =
    if is_memory c.provider
    then ok memory
    else if not (str_eq c.provider (txt "sqs"))
    then err (new (txt "unsupported queue provider " ++ quote c.provider))
    else elim (validate_queue_provider_config quote c) [
      | err e ↦ fall_back c.local_fallback_mode e
      | ok _ ↦ connected c.local_fallback_mode has_client (new_sqs_queue_adapter quote has_client c)
    ]
