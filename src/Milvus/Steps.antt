-- ===== src/Milvus/Steps.antt =====
-- internal/adapters/vector/milvus/adapter.go: what the steps of an operation leave as it was.
use fine_rag_core.Prelude.{ℤ, ◌≡◌, refl, ◌∙◌, Bool}
use fine_rag_core.Text.{Text, Unicode}
use fine_rag_core.Result.{Err, Result}
use fine_rag_core.Milvus.{
  Config, Call, Adapter, Outcome, done, stopped, M, then_do, ◌>>=◌, checked, call, answered, ended,
}

-- What an operation that goes on went through.
pub then_do-done :
    {W A B : Type 0} (next : A → M W B) (o : Outcome A × Adapter W) (b : B)
    → (then_do next o).0 ≡ done b
    → (a : A) × (o.0 ≡ done a) × (then_do next o ≡ next a o.1)
then_do-done next (done a, s) b h = (a, refl, refl)
then_do-done next (stopped status e, s) b h = cc

-- A condition on the value of an operation that goes on.
abbrev pub Ends {ℓ} : {A : Type 0} → (A → Type ℓ) → Outcome A → Type ℓ
Ends P (done a) = P a
Ends P (stopped status e) = Unit

pub then_do-Ends {ℓ} :
    {W A B : Type 0} (P : B → Type ℓ) (next : A → M W B) (o : Outcome A × Adapter W)
    → ((a : A) (s : Adapter W) → o.0 ≡ done a → Ends P (next a s).0)
    → Ends P (then_do next o).0
then_do-Ends P next (done a, s) h = h a s refl
then_do-Ends P next (stopped status e, s) h = tt

pub ended-answered :
    {W A : Type 0} (u : Unicode) (is_deadline : Err → Bool) (op : Text) (latency : ℤ)
    (o : Outcome A × Adapter W) (a : A)
    → (ended u is_deadline op latency o).0 ≡ answered a
    → (o.0 ≡ done a) × ((ended u is_deadline op latency o).1.world ≡ o.1.world)
unfolding ended
ended-answered u is_deadline op latency (done b, s) a h = (cc, refl)
ended-answered u is_deadline op latency (stopped status e, s) a h = cc

-- `view` is what is seen of the state of the store.
module _ {W V : Type 0} (view : W → V) where
  -- A call that changes nothing that is seen.
  abbrev pub Silent : {A : Type 0} → Call W A → Type 0
  Silent c = (w : W) → view (c w).1 ≡ view w

  pub record Same (a a' : Adapter W) : Type 0 where
    pub cfg : a'.cfg ≡ a.cfg
    pub seen : view a'.world ≡ view a.world

  abbrev pub Keeps : {A : Type 0} → M W A → Type 0
  Keeps m = (a : Adapter W) → Same a (m a).1

  Same-trans : (a b c : Adapter W) → Same a b → Same b c → Same a c
  Same-trans a b c p q = record { cfg = q.cfg ∙ p.cfg; seen = q.seen ∙ p.seen }

  pub bind-Keeps :
      {A B : Type 0} (m : M W A) (next : A → M W B)
      → Keeps m
      → ((x : A) → Keeps (next x))
      → Keeps (m >>= next)
  bind-Keeps {A} {B} m next hm hn a = by_outcome (m a) (hm a)
    where
      by_outcome : (o : Outcome A × Adapter W) → Same a o.1 → Same a (then_do next o).1
      by_outcome (done x, s) h = Same-trans a s _ h (hn x s)
      by_outcome (stopped status e, s) h = h

  pub checked-Keeps : {A : Type 0} (status : Text) (r : Result A) → Keeps (checked {W = W} status r)
  checked-Keeps status r a = record { cfg = refl; seen = refl }

  pub call-Keeps :
      {A : Type 0} (status : Text) (c : Config → Call W A)
      → ((g : Config) → Silent (c g))
      → Keeps (call status c)
  call-Keeps status c h a = record { cfg = refl; seen = h a.cfg a.world }
