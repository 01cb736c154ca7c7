-- ===== src/Text/Words.antt =====
-- What `fields` does: the words of a text are free of space, and no word is lost when texts are
-- joined by a space or trimmed.
use fine_rag_core.Prelude.{
  ℕ, ◌≡◌, ◌≢◌, refl, sym, ◌∙◌, ap, true, false, [], ◌∷◌, ◌++◌, append-nil, append_assoc, arith,
  if◌then◌else◌, is_empty, All, Bool-cases, inl, inr,
}
use fine_rag_core.Text.{
  Text, is_space, trim_left, trim_right, trim_space, fields_from, fields, is_blank,
}

-- No symbol of the text is a space.
abbrev pub Spaceless : Text → Type 0
Spaceless = All (λ c. is_space c ≡ false)

abbrev pub IsWord : Text → Type 0
IsWord w = (is_empty w ≡ false) × Spaceless w

snoc-Spaceless :
    (cur : Text) (c : ℕ) → Spaceless cur → is_space c ≡ false → Spaceless (cur ++ c ∷ [])
snoc-Spaceless [] c h hc = (hc, tt)
snoc-Spaceless (d ∷ cur) c (hd, h) hc = (hd, snoc-Spaceless cur c h hc)

fields_from-IsWord : (cur s : Text) → Spaceless cur → All IsWord (fields_from cur s)
unfolding fields_from
fields_from-IsWord [] [] h = tt
fields_from-IsWord (d ∷ cur) [] h = ((refl, h), tt)
fields_from-IsWord cur (c ∷ s) h = elim (Bool-cases (is_space c)) [
  | inl e ↦ rw e (split cur h (fields_from-IsWord [] s tt))
  | inr e ↦ rw e (fields_from-IsWord (cur ++ c ∷ []) s (snoc-Spaceless cur c h e))
]
  where
    split :
        (cur : Text)
        → Spaceless cur
        → All IsWord (fields_from [] s)
        → All IsWord (if is_empty cur then fields_from [] s else cur ∷ fields_from [] s)
    split [] h ih = ih
    split (d ∷ cur) h ih = ((refl, h), ih)

-- Every word is a word: not empty and with no space in it.
pub fields-IsWord : (s : Text) → All IsWord (fields s)
unfolding fields
fields-IsWord s = fields_from-IsWord [] s tt

-- A space between two texts separates their words.
fields_from-space :
    (sp : ℕ) (cur s t : Text)
    → is_space sp ≡ true
    → fields_from cur (s ++ sp ∷ t) ≡ fields_from cur s ++ fields_from [] t
unfolding fields_from
fields_from-space sp [] [] t h = rw h
fields_from-space sp (d ∷ cur) [] t h = rw h
fields_from-space sp cur (c ∷ s) t h =
    ground (arith, h, fields_from-space sp [] s t h, fields_from-space sp (cur ++ c ∷ []) s t h)

fields_from-word :
    (cur w : Text) → Spaceless w → is_empty (cur ++ w) ≡ false → fields_from cur w ≡ (cur ++ w) ∷ []
unfolding fields_from
fields_from-word [] [] h ne = cc
fields_from-word (d ∷ cur) [] h ne = rw append-nil
fields_from-word cur (c ∷ w) (hc, h) ne =
    rw hc (fields_from-word (cur ++ c ∷ []) w h (rw append_assoc ne) ∙ rw append_assoc refl)

pub fields-nil : fields [] ≡ []
unfolding fields fields_from
fields-nil = refl

pub fields-word : (w : Text) → IsWord w → fields w ≡ w ∷ []
unfolding fields
fields-word w (ne, h) = fields_from-word [] w h ne

pub fields-space :
    (sp : ℕ) (s t : Text) → is_space sp ≡ true → fields (s ++ sp ∷ t) ≡ fields s ++ fields t
unfolding fields
fields-space sp s t h = fields_from-space sp [] s t h

fields-trim_left : (s : Text) → fields (trim_left s) ≡ fields s
unfolding fields fields_from trim_left
fields-trim_left [] = refl
fields-trim_left (c ∷ s) = ground (arith, fields-trim_left s)

fields_from-trim_right : (cur s : Text) → fields_from cur (trim_right s) ≡ fields_from cur s
unfolding fields_from trim_right
fields_from-trim_right cur [] = refl
fields_from-trim_right cur (c ∷ s) =
    ground (arith, fields_from-trim_right [] s, fields_from-trim_right (cur ++ c ∷ []) s)

-- Trimming loses no word.
pub fields-trim_space : (s : Text) → fields (trim_space s) ≡ fields s
unfolding trim_space fields
fields-trim_space s = fields_from-trim_right [] (trim_left s) ∙ fields-trim_left s

nil-is_empty : (t : Text) → is_empty t ≡ true → t ≡ []
nil-is_empty [] e = refl
nil-is_empty (c ∷ t) e = cc

pub fields-is_blank : (s : Text) → is_blank s ≡ true → fields s ≡ []
fields-is_blank s e =
    sym (fields-trim_space s) ∙ (ap fields (nil-is_empty (trim_space s) e) ∙ fields-nil)

-- A text with a word in it is not blank.
pub is_blank-fields : (s : Text) → fields s ≢ [] → is_blank s ≡ false
is_blank-fields s h = elim (Bool-cases (is_blank s)) [
  | inl e ↦ absurd (h (fields-is_blank s e))
  | inr e ↦ e
]
