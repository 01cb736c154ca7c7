-- ===== src/Sorting.antt =====
-- `sort.SliceStable`, as a stable insertion. For a test `less` that is a strict weak order the
-- sorted stable arrangement is unique, so this is what Go's in-place merge arrives at as well.
use mathlib.Core.List.{Perm}
use mathlib.Core.List.Perm
use fine_rag_core.Prelude.{
  ◌≡◌, Bool, true, false, List, [], ◌∷◌, if◌then◌else◌, All, Bool-cases, inl, inr,
}

module _ {ℓ} {A : Type ℓ} (less : A → A → Bool) where
  -- `x` goes in front of the first element that is not less than it
  unfoldable pub insert_stable : A → List A → List A
  insert_stable x [] = x ∷ []
  insert_stable x (y ∷ ys) =
      let rest = insert_stable x ys in if less y x then y ∷ rest else x ∷ y ∷ ys

  unfoldable pub sort_stable : List A → List A
  unfolding insert_stable
  sort_stable [] = []
  sort_stable (x ∷ xs) = insert_stable x (sort_stable xs)

  insert-perm : (x : A) (ys : List A) → Perm (insert_stable x ys) (x ∷ ys)
  unfolding insert_stable
  insert-perm x [] = Perm.refl _
  insert-perm x (y ∷ ys) = elim (Bool-cases (less y x)) [
    | inl e ↦ rw e (Perm.trans (Perm.cons y (insert-perm x ys)) (Perm.swap x y ys))
    | inr e ↦ rw e (Perm.refl _)
  ]

  -- Sorting only moves elements.
  pub sort_stable-perm : (xs : List A) → Perm (sort_stable xs) xs
  unfolding sort_stable
  sort_stable-perm [] = Perm.refl []
  sort_stable-perm (x ∷ xs) =
      Perm.trans (insert-perm x (sort_stable xs)) (Perm.cons x (sort_stable-perm xs))

  -- No element comes right after one that it is less than.
  abbrev pub Ordered : List A → Type 0
  Ordered [] = Unit
  Ordered (x ∷ []) = Unit
  Ordered (x ∷ y ∷ ys) = (less y x ≡ false) × Ordered (y ∷ ys)

  abbrev pub IsAsymmetric : Type ℓ
  IsAsymmetric = (x y : A) → less x y ≡ true → less y x ≡ false

  -- `x` behind `y`, which is less than it.
  behind-Ordered :
      (x y : A) (ys : List A)
      → less x y ≡ false
      → Ordered (y ∷ ys)
      → Ordered (insert_stable x ys)
      → Ordered (y ∷ insert_stable x ys)
  unfolding insert_stable
  behind-Ordered x y [] h o i = (h, tt)
  behind-Ordered x y (z ∷ zs) h o i = chosen (less z x) (insert_stable x zs) i
    where
      chosen :
          (b : Bool) (rest : List A)
          → Ordered (if b then z ∷ rest else x ∷ z ∷ zs)
          → Ordered (y ∷ (if b then z ∷ rest else x ∷ z ∷ zs))
      chosen true rest i = (o.0, i)
      chosen false rest i = (h, i)

  insert-Ordered : IsAsymmetric → (x : A) (ys : List A) → Ordered ys → Ordered (insert_stable x ys)
  unfolding insert_stable
  insert-Ordered asym x [] o = tt
  insert-Ordered asym x (y ∷ ys) o = elim (Bool-cases (less y x)) [
    | inl e ↦
        rw e (behind-Ordered x y ys (asym y x e) o (insert-Ordered asym x ys (tail_Ordered y ys o)))
    | inr e ↦ rw e (e, o)
  ]
    where
      tail_Ordered : (y : A) (ys : List A) → Ordered (y ∷ ys) → Ordered ys
      tail_Ordered y [] o = tt
      tail_Ordered y (z ∷ zs) o = o.1

  pub sort_stable-Ordered : IsAsymmetric → (xs : List A) → Ordered (sort_stable xs)
  unfolding sort_stable
  sort_stable-Ordered asym [] = tt
  sort_stable-Ordered asym (x ∷ xs) = insert-Ordered asym x _ (sort_stable-Ordered asym xs)

  module _ {κ} (P : A → Type κ) where
    insert-All : (x : A) (ys : List A) → P x → All P ys → All P (insert_stable x ys)
    unfolding insert_stable
    insert-All x [] h hs = (h, tt)
    insert-All x (y ∷ ys) h (hy, hs) = elim (Bool-cases (less y x)) [
      | inl e ↦ rw e (hy, insert-All x ys h hs)
      | inr e ↦ rw e (h, (hy, hs))
    ]

    pub sort_stable-All : (xs : List A) → All P xs → All P (sort_stable xs)
    unfolding sort_stable
    sort_stable-All [] h = tt
    sort_stable-All (x ∷ xs) (hx, hs) = insert-All x _ hx (sort_stable-All xs hs)

-- `xs` is `ys` in another order, so what holds of every element of `ys` holds of those of `xs`.
pub record Rearranged {A : Type 0} (xs ys : List A) : Type 1 where
  pub perm : Perm xs ys
  pub all : (P : A → Type 0) → All P ys → All P xs

module _ {A : Type 0} where
  pub Rearranged-refl : (xs : List A) → Rearranged xs xs
  Rearranged-refl xs = record { perm = Perm.refl xs; all = λ P h. h }

  pub Rearranged-trans :
      (xs ys zs : List A) → Rearranged xs ys → Rearranged ys zs → Rearranged xs zs
  Rearranged-trans xs ys zs p q = record {
    perm = Perm.trans p.perm q.perm;
    all = λ P h. p.all P (q.all P h);
  }

  pub sort_stable-Rearranged :
      (less : A → A → Bool) (xs : List A) → Rearranged (sort_stable less xs) xs
  sort_stable-Rearranged less xs = record {
    perm = sort_stable-perm less xs;
    all = λ P h. sort_stable-All less P xs h;
  }

  -- A test that chooses between an order and none.
  pub if-Rearranged :
      {B : Type 0} (b : Bool) (list : B → List A) (x y : B) (ys : List A)
      → Rearranged (list x) ys
      → Rearranged (list y) ys
      → Rearranged (list (if b then x else y)) ys
  if-Rearranged true list x y ys hx hy = hx
  if-Rearranged false list x y ys hx hy = hy
