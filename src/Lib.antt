-- ===== src/Lib.antt =====
-- A model of the core of FineRAG, a service that ingests documents of many tenants, embeds their
-- chunks and answers questions from them. The Go code is under internal/ and backend/; the library
-- follows its packages.
--
-- Prelude: natural numbers, Go's `int`, lists, and the tests and names that all files use.
-- Text: Go strings. A string is the list of its code points, a byte that is no UTF-8 counts as a
--   point of its own above them, and `byte_len` is Go's `len`. `trim_space`, `fields`, `contains`
--   and `to_lower` are those of the package strings. Words has the laws of `fields`, Bytes the
--   bytes of a string and the cuts at a byte.
-- Result: errors, and a result with an error. Dict: a map as an association list. Sorting:
--   sort.SliceStable as a stable insertion sort.
-- Contracts: internal/contracts/contracts.go, the records that the packages exchange and their
--   Validate methods. A child for each group: Tenant, Job, Profile, Retrieval, Audit.
-- RateLimit: internal/ratelimit/limiter.go. `allow` is Limiter.Allow; the mutex makes a call one
--   step from a limiter to a limiter, and the second that the clock shows is an argument. Window
--   has the theorems on the counters; Log relates them to a list of the accepted requests.
-- Governance: internal/services/governance/service.go. `evaluate_ingestion` is EvaluateIngestion;
--   its state is the list of events that the audit sink was given. Gate has the theorems.
-- Ingestion: internal/services/ingestion. Chunk.`chunk_payload` is chunkPayload; Profiler has the
--   DeterministicProfiler and the MetadataRecorder; Queue has the queue in memory and the choice of
--   a provider, Sqs the queue over SQS; Worker is the DeterministicAsyncWorker. Its
--   Process.`process_message` is ProcessMessage, cut where the Go function tests for an error, and
--   Process has a child for each group of theorems.
-- Retrieval: internal/services/retrieval/service.go. `rerank` is Rerank with its circuit breaker,
--   Documents.`search_documents` is searchDocuments, Ranking orders documents by the terms of their
--   names, and Search.`search` is Search. Documents.Given lists what the store answers for
--   a query. Breaker, Documents.Unique, Search.Isolation and Search.Total have the theorems.
-- Auth: internal/auth/apikey.go, with the theorems in Claims. Repository:
--   internal/repository/tenant_guard.go, on Contracts.Tenant.Scope. Middleware:
--   internal/middleware/tenant_context.go, which fills the context that the guards read, with the
--   label of a tenant for metrics in Label.
-- Gateway: internal/adapters/gateway, the rerankers over an external model. Portkey is
--   portkey/reranker.go, `rerank` being RerankerAdapter.Rerank with its attempts, its breaker and
--   its fallback, with the client over HTTP in Portkey.Calls; Cohere is cohere/reranker.go.
--   Settled, Among and Answers have the theorems. These rerankers are what Retrieval takes as a
--   collaborator.
-- Milvus: internal/adapters/vector/milvus/adapter.go. An operation is a chain of steps on the
--   adapter, each of which goes on or stops with the status of the trace. Connection is NewAdapter,
--   Collection is ensureCollection, Guards and Rows are the checks and the translation of records
--   and rows, and Operations has Upsert, Search, SearchByEmbedding and PurgeTenant. Rows.Written
--   has the columns as the store gives them back. Prepared, Held, Purged and Best have the theorems.
-- Vectors: internal/adapters/vector, the store in memory of stub/adapter.go as a map from tenants
--   to lists of records, and errors.go. Shards relates it to one list of all records; Isolation has
--   what a search finds.
-- Backend: backend/. Chunks is ChunkText of util/apiutil/text.go, with its theorems in Windows,
--   WindowWords and SamePacking; Noise, Terms and Snippets have the other functions of that file.
--   Json, Content, Objects and Artifacts are the helpers and indexPayloadArtifacts of
--   managers/ingestion.go: the function is cut where it tests a collaborator or an error, and
--   returns what it answers with the batches that it handed to the index. Jobs has the handlers and
--   processIngestionBackground as functions on the rows of the table ingestion_jobs; Jobs.Links and
--   Jobs.Lifecycle make them the steps of a system of rows and running goroutines. Tokens and
--   Environment are parts of util/apiutil/util.go: SignJWT, VerifyJWT and secrets, and values of
--   the environment. Login is HandleLogin of managers/auth.go, and Access the layers WithRequestID,
--   WithAuth and WithTenant of util/serverUtil.go with the WindowLimiter; Login.Issued and
--   Access.Admission have the theorems. Answers and Search are managers/search.go: `handle_search`
--   is HandleSearch on top of Retrieval.Search, and Stream has the events of HandleSearchStream.
--   Search.Answered and Terms.Order have the theorems.
-- Tests: runs at concrete inputs.
--
-- The worker calls a queue, a blob store, an embedding provider, a vector index, a store of keys
-- and a hook for retention. Each is an optional function that answers by the log of the calls that
-- were made before, so that a theorem about the log holds for every behaviour of these services.
-- The queue in memory is one of them, and Process.InMemory and Process.Poison join the two. The
-- collaborators of retrieval answer by the turn, which counts their calls and comes to the same.
--
-- Parameters of the model, since their code is elsewhere: SHA-256, the tables of Unicode,
-- strings.EqualFold, the layout of times and the verb %q, HMAC, base64 and JSON, the database, the
-- client of SQS, the client of Milvus with strconv.Atoi and url.Parse, HTTP for the rerankers, the
-- language model, two regular expressions of util/apiutil/text.go, the object store, the order in
-- which Go runs over a map, the tables of users and of their tenants, the clock, and the services
-- above. The text of a PDF is a parameter, too, since its extraction is not modelled. A statement
-- of the database is carried out or fails as a whole; a row that is read is one of the table's
-- type, so that reading it does not fail. A Go `int` is an integer; where it can
-- overflow, in an increment and in `topK * 24`, it wraps at 64 bits. Times are nanoseconds since Go's zero time. The digits of a number are
-- made on fuel, one more than the number, which is enough as Ingestion.Worker.Decimal shows.
--
-- A float64 is an abstract type with its `>`, `==`, `+` and conversion, and for the similarity of
-- vectors its other operations. The quotients of counts in Noise are compared as fractions, which
-- is what the comparison of the float64 values gives for texts below 2^40 runes. The client of
-- Milvus carries the state of the store from call to call. What is assumed of it stands in the
-- theorems: for the columns that are read again, that a column of texts gives its texts back, and
-- for a purge, that a deletion by a tenant's literal removes the rows of that tenant. ChunkText
-- runs on fuel, the number of the words, which is enough since each window moves on.
-- sort.SliceStable is a stable insertion sort, which is what it computes if the test is a strict
-- weak order; scores that are NaN are outside the model. The wait for the reranker is its answer or
-- the error of the context.
--
-- Not modelled: the SQL adapters and the parsers, which call other programs; the clients for chat
-- and embeddings of Portkey; the handlers of tenants, uploads and knowledge bases and the stream of
-- job events; logging and telemetry, with docsForDebugLog of the questions; the strings of a PDF,
-- the JSON that is written to a client, and the configuration of the runtime from the environment;
-- buildHeuristicRetrievalQuery, which nothing calls.
pub mod Prelude
pub mod Text
pub mod Result
pub mod Dict
pub mod Sorting
pub mod Auth
pub mod Backend
pub mod Contracts
pub mod Gateway
pub mod Governance
pub mod Ingestion
pub mod Middleware
pub mod Milvus
pub mod RateLimit
pub mod Repository
pub mod Retrieval
pub mod Vectors
pub mod Tests
