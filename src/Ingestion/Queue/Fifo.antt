-- ===== src/Ingestion/Queue/Fifo.antt =====
-- internal/services/ingestion/queue_provider.go: the queue in memory is first in, first out.
use fine_rag_core.Prelude.{◌≡◌, List, ◌∷◌, ap}
use fine_rag_core.Result.{ok}
use fine_rag_core.Contracts.Job.{QueueMessage}
use fine_rag_core.Ingestion.Queue.{InMemoryQueueAdapter, pop, dequeue}

pub dequeue-cons :
    (q : InMemoryQueueAdapter) (m : QueueMessage) (rest : List QueueMessage)
    → q.messages ≡ m ∷ rest
    → dequeue q ≡ (ok m, record q { messages = rest })
unfolding dequeue
dequeue-cons q m rest h = ap (λ ms. pop ms q) h
