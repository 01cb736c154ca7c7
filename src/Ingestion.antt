-- ===== src/Ingestion.antt =====
-- internal/services/ingestion: the profiler, the queue and its worker.
pub mod Chunk
pub mod Queue
pub mod Worker
pub mod Profiler
pub mod Sqs
