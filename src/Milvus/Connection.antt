-- ===== src/Milvus/Connection.antt =====
-- internal/adapters/vector/milvus/adapter.go: the address of the store, and the adapter that is
-- connected to it. `url_host` is the host of `url.Parse`, and `connect` is `NewClient`.
use fine_rag_core.Prelude.{ℤ, pos, Bool, not, Option, some, ◌||◌, [], ◌++◌, is_empty, if◌then◌else◌}
use fine_rag_core.Text.{Text, txt, trim_space, is_blank, has_prefix, contains, Unicode}
use fine_rag_core.Result.{
  Err, new, wrap, Result, ok, err, on_result, ◌>>=◌, ◌>>◌, reject_if, map_err,
}
use fine_rag_core.Contracts.Audit.{ProviderError}
use fine_rag_core.Vectors.Errors.{normalize_provider_error}
use fine_rag_core.Vectors.{no_trace}
use fine_rag_core.Milvus.{Config, Adapter, mark_trace}

host_with_port : Text → Text → Result Text
host_with_port raw host = do
  reject_if (is_empty host) (new (txt "invalid milvus endpoint host"))
  ok (
      if contains host (txt ":")
      then host
      else if has_prefix raw (txt "https://")
      then host ++ txt ":443"
      else host ++ txt ":80")

unfoldable pub normalize_milvus_address : (Text → Result Text) → Text → Result Text
unfolding host_with_port txt
normalize_milvus_address url_host endpoint = do
  let raw = trim_space endpoint
  reject_if (is_empty raw) (new (txt "milvus endpoint is empty"))
  let parsed = map_err (wrap (txt "invalid milvus endpoint")) (url_host raw)
  if has_prefix raw (txt "http://") || has_prefix raw (txt "https://")
      then (parsed >>= λ host. host_with_port raw (trim_space host))
      else if contains raw (txt ":")
      then ok raw
      else ok (raw ++ txt ":19530")

-- What the client is made with: a key, or a name with a password.
pub record ClientConfig : Type 0 where
  pub address : Text
  pub db_name : Text
  pub enable_tls_auth : Bool
  pub api_key : Text
  pub username : Text
  pub password : Text

unfoldable pub client_config : Config → Text → ClientConfig
client_config c address =
    let token = trim_space c.token in
    record {
      address = address;
      db_name = trim_space c.database;
      enable_tls_auth = c.tls;
      api_key = token;
      username = if is_empty token then trim_space c.username else [];
      password = if is_empty token then trim_space c.password else [];
    }

-- A configuration that is refused, a store that is not reached, or the adapter.
pub data Opened (W : Type 0) : Type 0 where
  refused : Err → Opened W
  unreachable : Option ProviderError → Opened W
  opened : Adapter W → Opened W

-- The guards of `NewAdapter`, and the address.
unfoldable pub admit_config : (Text → Result Text) → Config → Result Text
unfolding normalize_milvus_address txt
admit_config url_host c = do
  reject_if (is_blank c.endpoint)
      (new (txt "FINE_RAG_MILVUS_ENDPOINT is required when FINE_RAG_VECTOR_PROVIDER=milvus"))
  reject_if (is_blank c.database)
      (new (txt "FINE_RAG_MILVUS_DATABASE is required when FINE_RAG_VECTOR_PROVIDER=milvus"))
  reject_if (is_blank c.collection)
      (new (txt "FINE_RAG_MILVUS_COLLECTION is required when FINE_RAG_VECTOR_PROVIDER=milvus"))
  reject_if (not c.tls) (new (txt "FINE_RAG_MILVUS_TLS must be true for milvus provider"))
  normalize_milvus_address url_host c.endpoint

module _ {W : Type 0} (u : Unicode) (is_deadline : Err → Bool)
    (connect : ClientConfig → Result W) where
  connected : Config → ℤ → Result W → Opened W
  unfolding mark_trace txt
  connected c latency (err e) =
      unreachable (normalize_provider_error u is_deadline (txt "milvus") (txt "connect") (some e))
  connected c latency (ok w) = opened (
      mark_trace (txt "ok") latency
        (record { cfg = c; world = w; dim = pos 0; last_trace = no_trace }))

  unfoldable pub new_adapter : (Text → Result Text) → Config → ℤ → Opened W
  unfolding admit_config client_config connected
  new_adapter url_host c latency =
      on_result (λ e. refused e)
        (λ address. connected c latency (connect (client_config c address)))
        (admit_config url_host c)
