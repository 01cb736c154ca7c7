-- ===== src/Backend/Artifacts/ChunkId.antt =====
-- backend/managers/ingestion.go: an id of a chunk tells which chunk it is; lists in which no text
-- stands twice.
use mathlib.Core.List.{append_cancel_left}
use fine_rag_core.Prelude.{
  tail_of, head_of, ℕ, ◌≡◌, ◌≢◌, refl, true, List, [], ◌∷◌, ◌++◌, All, All-append, leb, arith,
}
use fine_rag_core.Text.{Text, txt}
use fine_rag_core.Ingestion.Worker.{decimal}
use fine_rag_core.Ingestion.Worker.Decimal.{decimal-injective, decimal-AllDigits}
use fine_rag_core.Backend.Objects.{chunk_id}

-- Symbols that are above the dash, as digits are.
AboveDash : Text → Type 0
AboveDash s = All (λ c. leb b'0' c ≡ true) s

decimal-AboveDash : (n : ℕ) → AboveDash (decimal n)
unfolding AboveDash
decimal-AboveDash n = decimal-AllDigits n

-- The first dash ends the first number.
dash-splits :
    (xs us ys vs : Text)
    → AboveDash xs
    → AboveDash us
    → xs ++ (b'-' ∷ ys) ≡ us ++ (b'-' ∷ vs)
    → (xs ≡ us) × (ys ≡ vs)
unfolding AboveDash
dash-splits [] [] ys vs hx hu e = (refl, tail_of e)
dash-splits [] (u ∷ us) ys vs hx (hu, _) e = absurd (ground (arith, head_of e))
dash-splits (x ∷ xs) [] ys vs (hx, _) hu e = absurd (ground (arith, head_of e))
dash-splits (x ∷ xs) (u ∷ us) ys vs (hx, hxs) (hu, hus) e =
    let (same, rest) = dash-splits xs us ys vs hxs hus (tail_of e) in (cc (same, head_of e), rest)

-- The id of a chunk tells the place of its object and its own place.
pub chunk_id-injective :
    (job_id : Text) (i j a b : ℕ) → chunk_id job_id i j ≡ chunk_id job_id a b → (i ≡ a) × (j ≡ b)
unfolding chunk_id txt
chunk_id-injective job_id i j a b h =
    let rest = tail_of (append_cancel_left job_id _ _ (append_cancel_left (txt "vec-") _ _ h)) in
    let (first, second) =
      dash-splits (decimal i) (decimal a) (decimal j) (decimal b) (decimal-AboveDash i)
        (decimal-AboveDash a) rest in
    (decimal-injective i a first, decimal-injective j b second)

-- No text stands twice.
unfoldable pub Distinct : List Text → Type 0
Distinct [] = Unit
Distinct (x ∷ xs) = All (λ y. x ≢ y) xs × Distinct xs

pub Distinct-append :
    (xs ys : List Text)
    → Distinct xs
    → Distinct ys
    → All (λ x. All (λ y. x ≢ y) ys) xs
    → Distinct (xs ++ ys)
unfolding Distinct
Distinct-append [] ys hx hy h = hy
Distinct-append (x ∷ xs) ys (hx, hxs) hy (h, hs) =
    (All-append (λ y. x ≢ y) xs ys hx h, Distinct-append xs ys hxs hy hs)
