-- ===== src/Ingestion/Worker/Process/Finish.antt =====
-- internal/services/ingestion/service.go: the calls that end `ProcessMessage` when none of them
-- fails, and the steps before an error is returned.
use fine_rag_core.Prelude.{
  ◌≡◌, ◌≢◌, subst, refl, sym, ap, ◌∙◌, Option, none, some, List, [], ◌∷◌, ◌++◌, append_assoc,
}
use fine_rag_core.Text.{Text, txt}
use fine_rag_core.Result.{Err, Result, ok, err, map_err}
use fine_rag_core.Contracts.Tenant.{Time, wrap_validation_err}
use fine_rag_core.Contracts.Job.{QueueMessage, RetentionRecord, validate_retention_record}
use fine_rag_core.Ingestion.Worker.Effects.{
  save_call, apply_call, Log, Action, answered, settle, either, fail, lift, call_err, pure,
}
use fine_rag_core.Ingestion.Worker.{Worker, IdempotencyStore}
use fine_rag_core.Ingestion.Worker.Process.{
  finish, save_in, retain_by, apply_retention, retention_set,
}

-- A step that returned, where its error branch does not return.
pub settle-ok :
    {E A B : Type 0} (r : Result A) (failed : Err → Action E B) (next : A → Action E B)
    (log : Log E) (b : B)
    → ((e : Err) → (failed e log).0 ≢ ok b)
    → (settle r failed next log).0 ≡ ok b
    → (a : A) × (r ≡ ok a) × (settle r failed next log ≡ next a log)
settle-ok (ok a) failed next log b never h = (a, refl, refl)
settle-ok (err e) failed next log b never h = absurd (never e h)

pub answered-ok : (o : Option Err) (u : Unit {0}) → answered o ≡ ok u → o ≡ none
answered-ok none u h = refl
answered-ok (some e) u h = cc

-- A step before `next` that returned, where `next` does.
then-ok :
    {E : Type 0} (m next : Action E (Unit {0})) (log : Log E)
    → (either m fail (λ _. next) log).0 ≡ ok tt
    → either m fail (λ _. next) log ≡ next (m log).1
unfolding either
then-ok {E} m next log h = went (m log).0 (m log).1 h
  where
    went :
        (r : Result (Unit {0})) (log : Log E)
        → (settle r fail (λ _. next) log).0 ≡ ok tt
        → settle r fail (λ _. next) log ≡ next log
    went (ok u) log h = refl
    went (err e) log h = cc

-- The step before `next` returned, too.
then-first :
    {E : Type 0} (m next : Action E (Unit {0})) (log : Log E)
    → (either m fail (λ _. next) log).0 ≡ ok tt
    → (m log).0 ≡ ok tt
unfolding either
then-first {E} m next log h = went (m log).0 (m log).1 h
  where
    went :
        (r : Result (Unit {0})) (log : Log E)
        → (settle r fail (λ _. next) log).0 ≡ ok tt
        → r ≡ ok tt
    went (ok u) log h = refl
    went (err e) log h = cc

-- The calls of the hook, the latest first.
pub applied : {E : Type 0} → List RetentionRecord → Log E
applied [] = []
applied (r ∷ rs) = applied rs ++ apply_call r ∷ []

apply_retention-calls :
    {E : Type 0} (w : Worker E) (hook : Log E → RetentionRecord → Option Err)
    (rs : List RetentionRecord) (log : Log E)
    → (apply_retention w hook rs log).0 ≡ ok tt
    → (apply_retention w hook rs log).1 ≡ applied rs ++ log
unfolding apply_retention applied call_err lift pure
apply_retention-calls w hook [] log h = refl
apply_retention-calls w hook (r ∷ rs) log h =
    let checked =
      map_err (wrap_validation_err (txt "retention_record")) (validate_retention_record r) in
    let rest = apply_retention w hook rs in
    let tail = either (call_err (apply_call r) (λ log. hook log r)) fail (λ _. rest) in
    let one = then-ok (lift checked) tail log h in
    let two =
      then-ok (call_err (apply_call r) (λ log. hook log r)) rest log
        (sym (ap (λ x. x.0) one) ∙ h) in
    let both = one ∙ two in
    ap (λ x. x.1) both
    ∙ (apply_retention-calls w hook rs (apply_call r ∷ log) (sym (ap (λ x. x.0) both) ∙ h)
        ∙ sym (append_assoc (applied rs) (apply_call r ∷ []) log))

-- The hook accepts each record, after the calls before it.
pub Applied :
    {E : Type 0} → (Log E → RetentionRecord → Option Err) → List RetentionRecord → Log E → Type 0
Applied hook [] log = Unit
Applied hook (r ∷ rs) log = (hook log r ≡ none) × Applied hook rs (apply_call r ∷ log)

apply_retention-Applied :
    {E : Type 0} (w : Worker E) (hook : Log E → RetentionRecord → Option Err)
    (rs : List RetentionRecord) (log : Log E)
    → (apply_retention w hook rs log).0 ≡ ok tt
    → Applied hook rs log
unfolding apply_retention Applied call_err lift
apply_retention-Applied w hook [] log h = tt
apply_retention-Applied w hook (r ∷ rs) log h =
    let checked =
      map_err (wrap_validation_err (txt "retention_record")) (validate_retention_record r) in
    let rest = apply_retention w hook rs in
    let told = call_err (apply_call r) (λ log. hook log r) in
    let tail = either told fail (λ _. rest) in
    let one = then-ok (lift checked) tail log h in
    let h1 = sym (ap (λ x. x.0) one) ∙ h in
    let two = then-ok told rest log h1 in
    (
      answered-ok (hook log r) tt (then-first told rest log h1),
      apply_retention-Applied w hook rs (apply_call r ∷ log) (sym (ap (λ x. x.0) two) ∙ h1),
    )

module _ {E : Type 0} (w : Worker E) where
  -- The store, if there is one, accepts the key.
  pub Saved : Option (IdempotencyStore E) → Text → Log E → Type 0
  Saved none key log = Unit
  Saved (some store) key log = store.save log key w.idempotency_ttl ≡ none

  -- The hook, if there is one, accepts the records.
  pub Retained :
      Option (Log E → RetentionRecord → Option Err) → List RetentionRecord → Log E → Type 0
  Retained none rs log = Unit
  Retained (some hook) rs log = Applied hook rs log

  save_in-Saved :
      (idem : Option (IdempotencyStore E)) (key : Text) (log : Log E)
      → (save_in w idem key log).0 ≡ ok tt
      → Saved idem key log
  unfolding save_in Saved call_err
  save_in-Saved none key log h = tt
  save_in-Saved (some store) key log h = answered-ok _ tt h

  retain_by-Retained :
      (hook : Option (Log E → RetentionRecord → Option Err)) (rs : List RetentionRecord)
      (log : Log E)
      → (retain_by w hook rs log).0 ≡ ok tt
      → Retained hook rs log
  unfolding retain_by Retained
  retain_by-Retained none rs log h = tt
  retain_by-Retained (some hook) rs log h = apply_retention-Applied w hook rs log h

  -- The store is told the key.
  pub saved_calls : Option (IdempotencyStore E) → Text → Log E
  saved_calls none key = []
  saved_calls (some store) key = save_call key w.idempotency_ttl ∷ []

  pub retained_calls : Option (Log E → RetentionRecord → Option Err) → List RetentionRecord → Log E
  retained_calls none rs = []
  retained_calls (some hook) rs = applied rs

  -- The calls after the index has taken the records.
  pub finished_calls : QueueMessage → Time → Log E
  finished_calls m now =
      retained_calls w.retention (retention_set w m now) ++ saved_calls w.idem m.idempotency_key

  save_in-calls :
      (idem : Option (IdempotencyStore E)) (key : Text) (log : Log E)
      → (save_in w idem key log).1 ≡ saved_calls idem key ++ log
  unfolding save_in saved_calls call_err pure
  save_in-calls none key log = refl
  save_in-calls (some store) key log = refl

  retain_by-calls :
      (hook : Option (Log E → RetentionRecord → Option Err)) (rs : List RetentionRecord)
      (log : Log E)
      → (retain_by w hook rs log).0 ≡ ok tt
      → (retain_by w hook rs log).1 ≡ retained_calls hook rs ++ log
  unfolding retain_by retained_calls pure
  retain_by-calls none rs log h = refl
  retain_by-calls (some hook) rs log h = apply_retention-calls w hook rs log h

  pub finish-calls :
      (m : QueueMessage) (now : Time) (log : Log E)
      → (finish w m now log).0 ≡ ok tt
      → (finish w m now log).1 ≡ finished_calls m now ++ log
  unfolding finish finished_calls
  finish-calls m now log h =
      let key = m.idempotency_key in
      let rs = retention_set w m now in
      let next = then-ok (save_in w w.idem key) (retain_by w w.retention rs) log h in
      ap (λ x. x.1) next
      ∙ (retain_by-calls w.retention rs (save_in w w.idem key log).1 (sym (ap (λ x. x.0) next) ∙ h)
          ∙ (ap (λ l. retained_calls w.retention rs ++ l) (save_in-calls w.idem key log)
              ∙ sym (append_assoc (retained_calls w.retention rs) (saved_calls w.idem key) log)))

  pub finish-accepted :
      (m : QueueMessage) (now : Time) (log : Log E)
      → (finish w m now log).0 ≡ ok tt
      → Saved w.idem m.idempotency_key log
        × Retained w.retention (retention_set w m now) (saved_calls w.idem m.idempotency_key ++ log)
  unfolding finish
  finish-accepted m now log h =
      let key = m.idempotency_key in
      let rs = retention_set w m now in
      let save = save_in w w.idem key in
      let retain = retain_by w w.retention rs in
      let next = then-ok save retain log h in
      (
        save_in-Saved w.idem key log (then-first save retain log h),
        subst (Retained w.retention rs) (save_in-calls w.idem key log)
            (retain_by-Retained w.retention rs (save log).1 (sym (ap (λ x. x.0) next) ∙ h)),
      )
