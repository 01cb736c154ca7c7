-- ===== src/Result.antt =====
-- Go's `error` and the pair `(value, error)` of which exactly one part is meant.
use fine_rag_core.Prelude.{◌≡◌, refl, Bool, true, false, ◌++◌}
use fine_rag_core.Text.{Text, txt}

-- `errors.New`, and `fmt.Errorf` with `%w`, which keeps the cause.
pub data Err : Type 0 where
  new : Text → Err
  wrap : Text → Err → Err

-- `err.Error()`
unfoldable pub message : Err → Text
message (new t) = t
message (wrap t e) = t ++ (txt ": " ++ message e)

pub data Result {ℓ} (A : Type ℓ) : Type ℓ where
  ok : A → Result A
  err : Err → Result A

-- The value of a step that did not fail goes to the next one.
infixl 5 ◌>>=◌
abbrev pub ◌>>=◌ {κ ℓ} : {B : Type κ} {A : Type ℓ} → Result A → (A → Result B) → Result B
err e >>= next = err e
ok a >>= next = next a

infixl 5 ◌>>◌
abbrev pub ◌>>◌ {κ} : {B : Type κ} → Result (Unit {0}) → Result B → Result B
step >> next = step >>= λ _. next

-- `if b { return err }`
abbrev pub reject_if : Bool → Err → Result (Unit {0})
reject_if true e = err e
reject_if false e = ok tt

abbrev pub map_err {ℓ} : {A : Type ℓ} → (Err → Err) → Result A → Result A
map_err f (ok a) = ok a
map_err f (err e) = err (f e)

-- `if err != nil { … } else { … }`
abbrev pub on_result {ℓ κ} : {A : Type ℓ} {B : Type κ} → (Err → B) → (A → B) → Result A → B
on_result failed succeeded (err e) = failed e
on_result failed succeeded (ok a) = succeeded a

-- A condition on the value of a chain that succeeds.
abbrev pub Ensures {ℓ κ} : {A : Type ℓ} → (A → Type κ) → Result A → Type κ
Ensures P (err e) = Unit
Ensures P (ok a) = P a

pub bind-Ensures :
    {A B : Type 0} (P : B → Type 0) (r : Result A) (f : A → Result B)
    → ((a : A) → Ensures P (f a))
    → Ensures P (r >>= f)
bind-Ensures P (err e) f h = tt
bind-Ensures P (ok a) f h = h a

-- What a chain that succeeds went through.
pub bind-ok :
    {A B : Type 0} (r : Result A) (f : A → Result B) (b : B)
    → (r >>= f) ≡ ok b
    → (a : A) × (r ≡ ok a) × (f a ≡ ok b)
bind-ok (err e) f b h = cc
bind-ok (ok a) f b h = (a, refl, h)

pub reject-ok :
    {B : Type 0} (test : Bool) (e : Err) (r : Result B) (b : B)
    → (reject_if test e >> r) ≡ ok b
    → (test ≡ false) × (r ≡ ok b)
reject-ok true e r b h = cc
reject-ok false e r b h = (refl, h)

pub ok-injective : {A : Type 0} {a b : A} → ◌≡◌ {A = Result A} (ok a) (ok b) → a ≡ b
ok-injective h = cc
