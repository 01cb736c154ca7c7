-- ===== src/Ingestion/Worker/Keys.antt =====
-- internal/services/ingestion/service.go: `idempotencyKey` hashes the tenant, the job and the
-- checksum, joined by bars.
use mathlib.Core.List.{append_cancel_left}
use fine_rag_core.Prelude.{tail_of, ◌≡◌, ◌≢◌, refl, sym, ap, ◌∙◌, [], ◌∷◌, ◌++◌, append_assoc, All}
use fine_rag_core.Text.{Text, txt, join}
use fine_rag_core.Contracts.Job.{IngestionJob}
use fine_rag_core.Ingestion.Worker.{idempotency_key}

-- No bar in a text.
abbrev pub Barless : Text → Type 0
Barless = All (λ c. c ≢ b'|')

-- What is hashed.
pub hashed : IngestionJob → Text
hashed j = txt "idem" ++ (b'|' ∷ (j.tenant_id ++ (b'|' ∷ (j.job_id ++ (b'|' ∷ j.checksum)))))

idempotency_key-hashed :
    (hex : Text → Text) (j : IngestionJob) → idempotency_key hex j ≡ hex (hashed j)
unfolding idempotency_key hashed join
idempotency_key-hashed hex j = refl

cut_at_bar :
    (xs ys rest more : Text)
    → Barless xs
    → Barless ys
    → xs ++ b'|' ∷ rest ≡ ys ++ b'|' ∷ more
    → (xs ≡ ys) × (rest ≡ more)
cut_at_bar [] [] rest more hx hy h = (refl, cc)
cut_at_bar [] (y ∷ ys) rest more hx (hy, hys) h = absurd (hy (cc))
cut_at_bar (x ∷ xs) [] rest more (hx, hxs) hy h = absurd (hx (cc))
cut_at_bar (x ∷ xs) (y ∷ ys) rest more (hx, hxs) (hy, hys) h =
    let (same, after) = cut_at_bar xs ys rest more hxs hys (cc) in (cc, after)

-- Two jobs without bars in the names of their tenants and jobs, whose keys are equal though SHA-256
-- tells their hashed texts apart if they differ, are one job with one content: the tenant, the job's
-- name and the checksum agree.
pub idempotency_key-injective :
    (hex : Text → Text) (a b : IngestionJob)
    → (hex (hashed a) ≡ hex (hashed b) → hashed a ≡ hashed b)
    → Barless a.tenant_id
    → Barless b.tenant_id
    → Barless a.job_id
    → Barless b.job_id
    → idempotency_key hex a ≡ idempotency_key hex b
    → (a.tenant_id ≡ b.tenant_id) × (a.job_id ≡ b.job_id) × (a.checksum ≡ b.checksum)
unfolding hashed
idempotency_key-injective hex a b apart ta tb ja jb h =
    let same : hashed a ≡ hashed b =
      apart (sym (idempotency_key-hashed hex a) ∙ (h ∙ idempotency_key-hashed hex b)) in
    let at_bar = append_cancel_left (txt "idem") _ _ same in
    let (tenants, rest) = cut_at_bar a.tenant_id b.tenant_id _ _ ta tb (tail_of at_bar) in
    let (jobs, checksums) = cut_at_bar a.job_id b.job_id _ _ ja jb rest in
    (tenants, jobs, checksums)

-- With bars in the names the key does not tell tenants apart: a tenant named `t|u` with a job `j`,
-- and the tenant `t` with a job `u|j`, have one key for one content, whatever the hash.
pub idempotency_key-collides :
    (hex : Text → Text) (t u j : Text) (a b : IngestionJob)
    → a.tenant_id ≡ t ++ b'|' ∷ u
    → a.job_id ≡ j
    → b.tenant_id ≡ t
    → b.job_id ≡ u ++ b'|' ∷ j
    → a.checksum ≡ b.checksum
    → idempotency_key hex a ≡ idempotency_key hex b
unfolding hashed
idempotency_key-collides hex t u j a b ta ja tb jb c =
    idempotency_key-hashed hex a
    ∙ (ap hex (simp (ta, ja, tb, jb, c, append_assoc)) ∙ sym (idempotency_key-hashed hex b))
