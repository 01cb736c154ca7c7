-- ===== src/Ingestion/Worker/Decimal.antt =====
-- internal/services/ingestion/service.go: the decimal numbers in the ids of records.
use fine_rag_core.Prelude.{
  ℕ, zero, suc, ◌+◌, ◌-◌, ◌*◌, ◌/◌, ◌%◌, ◌≡◌, ◌<◌, sym, ap, ◌∙◌, Bool-cases, inl, inr, true, false,
  [], ◌∷◌, ltb, leb, All, arith,
}
use fine_rag_core.Text.{Text}
use fine_rag_core.Ingestion.Worker.{digits, decimal}

-- What a text of digits stands for, after a number in front of it.
pub value_after : ℕ → Text → ℕ
value_after n [] = n
value_after n (c ∷ s) = value_after (n * 10 + (c - b'0')) s

value_after-digits :
    (f n : ℕ) (out : Text) → n < f → value_after 0 (digits f n out) ≡ value_after n out
unfolding digits value_after
value_after-digits zero n out h = omega (arith, h)
value_after-digits (suc f) n out h = elim (Bool-cases (ltb n 10)) [
  | inl e ↦ rw e (ap (λ k. value_after k out) (last e))
  | inr e ↦ rw e (
      value_after-digits f (n / 10) ((b'0' + n % 10) ∷ out) (shorter e)
      ∙ ap (λ k. value_after k out) (omega arith))
]
  where
    last : ltb n 10 ≡ true → 0 * 10 + ((b'0' + n % 10) - b'0') ≡ n
    last e = ground arith

    shorter : ltb n 10 ≡ false → n / 10 < f
    shorter e = ground arith

-- The digits of a number are read back as the number: the fuel is enough.
pub value_after-decimal : (n : ℕ) → value_after 0 (decimal n) ≡ n
unfolding decimal value_after
value_after-decimal n = value_after-digits (suc n) n [] (omega arith)

-- So two chunks have different numbers.
pub decimal-injective : (m n : ℕ) → decimal m ≡ decimal n → m ≡ n
decimal-injective m n h =
    sym (value_after-decimal m) ∙ (ap (value_after 0) h ∙ value_after-decimal n)

digits-AllDigits :
    (f n : ℕ) (out : Text)
    → All (λ c. leb b'0' c ≡ true) out
    → All (λ c. leb b'0' c ≡ true) (digits f n out)
unfolding digits
digits-AllDigits zero n out h = h
digits-AllDigits (suc f) n out h =
    let digit : leb b'0' (b'0' + n % 10) ≡ true = ground arith in
    elim (Bool-cases (ltb n 10)) [
      | inl e ↦ rw e (digit, h)
      | inr e ↦ rw e (digits-AllDigits f (n / 10) ((b'0' + n % 10) ∷ out) (digit, h))
    ]

-- No symbol of a number is below the digits.
pub decimal-AllDigits : (n : ℕ) → All (λ c. leb b'0' c ≡ true) (decimal n)
unfolding decimal
decimal-AllDigits n = digits-AllDigits (suc n) n [] tt
