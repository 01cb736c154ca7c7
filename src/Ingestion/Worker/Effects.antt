-- ===== src/Ingestion/Worker/Effects.antt =====
-- Actions of the worker: each returns or fails, and extends the log of the calls that were made.
use fine_rag_core.Prelude.{
  ◌≡◌, refl, sym, ap, ◌∙◌, ◌++◌, append_assoc, All-append, Bool, true, false, Option, none, some,
  List, [], ◌∷◌, All, if◌then◌else◌,
}
use fine_rag_core.Text.{Text}
use fine_rag_core.Result.{Err, Result, ok, err}
use fine_rag_core.Contracts.Tenant.{Time, TenantId}
use fine_rag_core.Contracts.Job.{QueueMessage, VectorRecord, RetentionRecord}

-- The calls of the worker's collaborators. `E` is the type of an embedding's components.
pub data Call (E : Type 0) : Type 0 where
  dequeue_call : Call E
  enqueue_call : QueueMessage → Call E
  publish_call : QueueMessage → Text → Call E
  get_call : TenantId → Text → Call E
  embed_call : TenantId → List Text → Call E
  upsert_call : List (VectorRecord E) → Call E
  exists_call : Text → Call E
  save_call : Text → Time → Call E
  apply_call : RetentionRecord → Call E

-- The calls so far, the latest first.
abbrev pub Log : Type 0 → Type 0
Log E = List (Call E)

abbrev pub Action : Type 0 → Type 0 → Type 0
Action E A = Log E → Result A × Log E

module _ {E A : Type 0} where
  unfoldable pub pure : A → Action E A
  pure a log = (ok a, log)

  unfoldable pub fail : Err → Action E A
  fail e log = (err e, log)

  unfoldable pub lift : Result A → Action E A
  lift r log = (r, log)

  -- One call of a collaborator, which answers by the log before the call.
  unfoldable pub call : Call E → (Log E → Result A) → Action E A
  call c answer log = (answer log, c ∷ log)

  -- An action that reads the log.
  unfoldable pub reading : (Log E → Action E A) → Action E A
  reading m log = m log log

abbrev pub answered : Option Err → Result (Unit {0})
answered none = ok tt
answered (some e) = err e

-- One call whose answer is an `error` alone.
unfoldable pub call_err : {E : Type 0} → Call E → (Log E → Option Err) → Action E (Unit {0})
call_err c answer log = (answered (answer log), c ∷ log)

module _ {E A B : Type 0} where
  abbrev pub settle : Result A → (Err → Action E B) → (A → Action E B) → Action E B
  settle (ok a) failed next = next a
  settle (err e) failed next = failed e

  -- `if err != nil { return failed(err) }`, and on with `next` otherwise. To open it is to open
  -- the actions above, too.
  unfoldable pub either : Action E A → (Err → Action E B) → (A → Action E B) → Action E B
  unfolding pure fail lift call call_err reading
  either m failed next log = let (r, log') = m log in settle r failed next log'

  infixl 5 ◌>>=◌
  abbrev pub ◌>>=◌ : Action E A → (A → Action E B) → Action E B
  m >>= next = either m fail next

infixl 5 ◌>>◌
abbrev pub ◌>>◌ : {E B : Type 0} → Action E (Unit {0}) → Action E B → Action E B
m >> next = m >>= λ _. next

-- A step whose answer is known.
module _ {E A B : Type 0} (m : Action E A) (failed : Err → Action E B) (next : A → Action E B) where
  pub either_of_ok :
      (log : Log E) (a : A) → (m log).0 ≡ ok a → either m failed next log ≡ next a (m log).1
  unfolding either
  either_of_ok log a h = ap (λ r. settle r failed next (m log).1) h

  pub either_of_err :
      (log : Log E) (e : Err) → (m log).0 ≡ err e → either m failed next log ≡ failed e (m log).1
  unfolding either
  either_of_err log e h = ap (λ r. settle r failed next (m log).1) h

-- The calls by which `after` extends `before`, each of which has `P`.
abbrev pub Extends : {E : Type 0} → (Call E → Type 0) → Log E → Log E → Type 0
Extends {E} P before after = (made : Log E) × (after ≡ made ++ before) × All P made

-- Every call that the action makes has `P`.
pub record Makes {E A : Type 0} (P : Call E → Type 0) (m : Action E A) : Type 0 where
  pub at : (log : Log E) → Extends P log (m log).1

Extends-trans :
    {E : Type 0} {P : Call E → Type 0} (a b c : Log E)
    → Extends P a b
    → Extends P b c
    → Extends P a c
Extends-trans {P = P} a b c (made, same, all) (more, same', all') = (
  more ++ made,
  same' ∙ (ap (λ l. more ++ l) same ∙ sym (append_assoc more made a)),
  All-append P more made all' all,
)

module _ {E A : Type 0} {P : Call E → Type 0} where
  pub Makes-pure : (a : A) → Makes P (pure {E = E} a)
  unfolding pure
  Makes-pure a = record { at = λ log. ([], refl, tt) }

  pub Makes-fail : (e : Err) → Makes P (fail {E = E} {A = A} e)
  unfolding fail
  Makes-fail e = record { at = λ log. ([], refl, tt) }

  pub Makes-lift : (r : Result A) → Makes P (lift {E = E} r)
  unfolding lift
  Makes-lift r = record { at = λ log. ([], refl, tt) }

  pub Makes-call : (c : Call E) (answer : Log E → Result A) → P c → Makes P (call c answer)
  unfolding call
  Makes-call c answer p = record { at = λ log. (c ∷ [], refl, (p, tt)) }

  pub Makes-reading :
      (m : Log E → Action E A) → ((log : Log E) → Makes P (m log)) → Makes P (reading m)
  unfolding reading
  Makes-reading m k = record { at = λ log. (k log).at log }

  pub Makes-if :
      (b : Bool) (m n : Action E A)
      → (b ≡ true → Makes P m)
      → (b ≡ false → Makes P n)
      → Makes P (if b then m else n)
  Makes-if true m n km kn = km refl
  Makes-if false m n km kn = kn refl

pub Makes-call_err :
    {E : Type 0} {P : Call E → Type 0} (c : Call E) (answer : Log E → Option Err)
    → P c
    → Makes P (call_err c answer)
unfolding call_err
Makes-call_err c answer p = record { at = λ log. (c ∷ [], refl, (p, tt)) }

module _ {E A B : Type 0} {P : Call E → Type 0} where
  settle-Makes :
      (r : Result A) (failed : Err → Action E B) (next : A → Action E B)
      → ((e : Err) → Makes P (failed e))
      → ((a : A) → Makes P (next a))
      → Makes P (settle r failed next)
  settle-Makes (ok a) failed next kf kn = kn a
  settle-Makes (err e) failed next kf kn = kf e

  pub Makes-either :
      (m : Action E A) (failed : Err → Action E B) (next : A → Action E B)
      → Makes P m
      → ((e : Err) → Makes P (failed e))
      → ((a : A) → Makes P (next a))
      → Makes P (either m failed next)
  unfolding either
  Makes-either m failed next km kf kn = record {
    at = λ log.
        let (r, log') = m log in
        Extends-trans log log' (settle r failed next log').1 (km.at log)
          ((settle-Makes r failed next kf kn).at log');
  }

-- Of `next` only what it does after an answer that `m` has given.
module _ {E A B : Type 0} {P : Call E → Type 0} where
  answered-Makes :
      (r : Result A) (failed : Err → Action E B) (next : A → Action E B)
      → ((e : Err) → Makes P (failed e))
      → ((a : A) → r ≡ ok a → Makes P (next a))
      → Makes P (settle r failed next)
  answered-Makes (ok a) failed next kf kn = kn a refl
  answered-Makes (err e) failed next kf kn = kf e

  pub Makes-either_given :
      (m : Action E A) (failed : Err → Action E B) (next : A → Action E B)
      → Makes P m
      → ((e : Err) → Makes P (failed e))
      → ((log : Log E) (a : A) → (m log).0 ≡ ok a → Makes P (next a))
      → Makes P (either m failed next)
  unfolding either
  Makes-either_given m failed next km kf kn = record {
    at = λ log.
        let (r, log') = m log in
        Extends-trans log log' (settle r failed next log').1 (km.at log)
          ((answered-Makes r failed next kf (kn log)).at log');
  }

pub ruleset makes_rules =
    (Makes-pure, Makes-fail, Makes-lift, Makes-call, Makes-call_err, Makes-reading, Makes-either)
