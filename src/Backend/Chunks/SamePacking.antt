-- ===== src/Backend/Chunks/SamePacking.antt =====
-- backend/util/apiutil/text.go and internal/services/ingestion/service.go: `ChunkText` without an
-- overlap and `chunkPayload` cut a text in the same places.
use fine_rag_core.Prelude.{
  ℕ, zero, suc, ◌+◌, ◌≡◌, ◌≢◌, ◌≤◌, ◌<◌, refl, sym, ap, ◌∙◌, pos, Bool, true, false, List, [], ◌∷◌,
  ◌++◌, map, take, drop, length, if◌then◌else◌, is_empty, ltb, leb, All, inl, inr, Bool-cases,
  arith, or_default, append_assoc,
}
use fine_rag_core.Text.{Text, trim_space, fields, byte_len, join, width}
use fine_rag_core.Text.Words.{IsWord, fields-IsWord, fields-trim_space}
use fine_rag_core.Ingestion.Chunk.{candidate, pack, default_chunk_size, chunk_payload}
use fine_rag_core.Backend.Chunks.{fill, stride, windows, default_max_len, joined, chunk_text}
use fine_rag_core.Backend.Chunks.WindowWords.{words-take, words-drop}
use fine_rag_core.Backend.Chunks.Windows.{fill-pos, at_least_one-lem, length-drop}
use fine_rag_core.Text.Lengths.{byte_len-append}

-- Nothing more goes into a window that is full.
fill-full : (m c : ℕ) (ws : List Text) → m ≤ c → fill m true c ws ≡ 0
unfolding fill
fill-full m c [] h = refl
fill-full m c (w ∷ ws) h = ground arith

fill-first :
    (m : ℕ) (w : Text) (ws : List Text)
    → fill m false 0 (w ∷ ws) ≡ suc (fill m true (byte_len w) ws)
unfolding fill
fill-first m w ws = ground (arith, fill-full m (byte_len w) ws)

fill-next :
    (m c : ℕ) (w : Text) (ws : List Text)
    → fill m true c (w ∷ ws)
      ≡ (if ltb m (c + byte_len w + 1) then 0 else suc (fill m true (c + byte_len w + 1) ws))
unfolding fill
fill-next m c w ws = ground (arith, fill-full m (c + byte_len w + 1) ws)

-- The words that are added to a chunk, each after a space.
glued : Text → List Text → Text
glued current [] = current
glued current (w ∷ ws) = glued (candidate current w) ws

glued-append : (s t : Text) (ws : List Text) → t ≢ [] → glued (s ++ t) ws ≡ s ++ glued t ws
unfolding glued candidate
glued-append s [] ws h = absurd (h refl)
glued-append [] (c ∷ t) ws h = refl
glued-append (d ∷ s) (c ∷ t) [] h = refl
glued-append (d ∷ s) (c ∷ t) (w ∷ ws) h =
    rw append_assoc (glued-append (d ∷ s) (c ∷ t ++ b' ' ∷ w) ws (λ e. cc))

word-nonempty : (w : Text) → IsWord w → w ≢ []
word-nonempty [] (e, _) = cc
word-nonempty (c ∷ w) h = λ e. cc

joined-glued : (w : Text) (ws : List Text) → IsWord w → All IsWord ws → joined (w ∷ ws) ≡ glued w ws
unfolding join glued candidate
joined-glued w [] h a = refl
joined-glued [] (v ∷ ws) (e, _) a = cc
joined-glued (c ∷ w) (v ∷ ws) h (hv, a) =
    let rest = glued-append (b' ' ∷ []) v ws (word-nonempty v hv) in
    let all = glued-append (c ∷ w) (b' ' ∷ v) ws (λ e. cc) in
    ap (λ t. (c ∷ w) ++ (b' ' ∷ t)) (joined-glued v ws hv a)
    ∙ (ap (λ t. (c ∷ w) ++ t) (sym rest) ∙ sym all)

byte_len-candidate :
    (current w : Text)
    → is_empty current ≡ false
    → byte_len (candidate current w) ≡ byte_len current + byte_len w + 1
unfolding candidate
byte_len-candidate [] w e = cc
byte_len-candidate (c ∷ current) w e =
    let space : byte_len (b' ' ∷ w) ≡ 1 + byte_len w = unfold byte_len width in refl in
    omega (arith, byte_len-append (c ∷ current) (b' ' ∷ w), space)

-- What `pack` does with a word, where a chunk has begun.
pack-step :
    (m : ℕ) (current w : Text) (ws : List Text)
    → is_empty current ≡ false
    → pack m current (w ∷ ws) ≡ (
        if ltb m (byte_len current + byte_len w + 1)
        then current ∷ pack m w ws
        else pack m (candidate current w) ws)
unfolding pack
pack-step m current w ws e = rw (byte_len-candidate current w e, e) (ground arith)

pack-first : (m : ℕ) (w : Text) (ws : List Text) → pack m [] (w ∷ ws) ≡ pack m w ws
unfolding pack candidate
pack-first m w ws = ground arith

-- A chunk that has begun is filled like a window.
pack-fill :
    (m : ℕ) (current : Text) (ws : List Text)
    → is_empty current ≡ false
    → All IsWord ws
    → pack m current ws
      ≡ glued current (take (fill m true (byte_len current) ws) ws)
        ∷ pack m [] (drop (fill m true (byte_len current) ws) ws)
pack-fill m [] [] e a = cc
pack-fill m (c ∷ current) [] e a = unfold pack fill glued in refl
pack-fill m current (w ∷ ws) e (hw, a) =
    let d = byte_len current + byte_len w + 1 in
    elim (Bool-cases (ltb m d)) [
      | inl over ↦
          rw (pack-step m current w ws e, fill-next m (byte_len current) w ws, over)
            (unfold glued in ap (λ cs. current ∷ cs) (sym (pack-first m w ws)))
      | inr over ↦
          rw (pack-step m current w ws e, fill-next m (byte_len current) w ws, over)
            (grown d (byte_len-candidate current w e)
              (pack-fill m (candidate current w) ws (candidate-is_empty current w hw) a))
    ]
  where
    candidate-is_empty : (s t : Text) → IsWord t → is_empty (candidate s t) ≡ false
    candidate-is_empty [] t (ne, _) = unfold candidate in ne
    candidate-is_empty (x ∷ s) t h = unfold candidate in refl

    grown :
        (d : ℕ)
        → byte_len (candidate current w) ≡ d
        → pack m (candidate current w) ws
          ≡ glued (candidate current w) (take (fill m true (byte_len (candidate current w)) ws) ws)
            ∷ pack m [] (drop (fill m true (byte_len (candidate current w)) ws) ws)
        → pack m (candidate current w) ws
          ≡ glued current (take (suc (fill m true d ws)) (w ∷ ws))
            ∷ pack m [] (drop (suc (fill m true d ws)) (w ∷ ws))
    grown d same h = unfold glued in rw (← same) h

stride-zero : (n : ℕ) → 0 < n → stride 0 n ≡ n
unfolding stride
stride-zero n h = ground arith

-- After the last window there are no words.
drop-all : (n : ℕ) (ws : List Text) → length ws ≤ n → drop n ws ≡ []
drop-all zero [] h = refl
drop-all zero (w ∷ ws) h = absurd (omega arith)
drop-all (suc n) [] h = refl
drop-all (suc n) (w ∷ ws) h = drop-all n ws (omega arith)

last-pack :
    (m n : ℕ) (ws : List Text) (more : List (List Text)) (last : Bool)
    → leb (length ws) n ≡ last
    → pack m [] (drop n ws) ≡ map joined more
    → pack m [] (drop n ws) ≡ map joined (if last then [] else more)
last-pack m n ws more true e h = unfold pack in rw (drop-all n ws (ground arith)) refl
last-pack m n ws more false e h = h

windows-pack :
    (f m : ℕ) (ws : List Text)
    → All IsWord ws
    → length ws ≤ f
    → pack m [] ws ≡ map joined (windows f m 0 ws)
unfolding windows
windows-pack zero m [] a h = unfold pack in refl
windows-pack zero m (w ∷ ws) a h = absurd (omega arith)
windows-pack (suc f) m [] a h = unfold pack in refl
windows-pack (suc f) m (w ∷ ws) ((ne, hw), a) h =
    let k = fill m true (byte_len w) ws in
    let more = windows f m 0 (drop k ws) in
    let rest = windows-pack f m (drop k ws) (words-drop k ws a) (omega (arith, length-drop k ws)) in
    let n_pos : 0 < suc k = omega arith in
    rw
      (
        at_least_one-lem (fill m false 0 (w ∷ ws)) (fill-pos m 0 w ws),
        fill-first m w ws,
        stride-zero (suc k) n_pos,
        joined-glued w (take k ws) (ne, hw) (words-take k ws a),
      )
      (pack-first m w ws
        ∙ (pack-fill m w ws ne a
            ∙ ap (λ cs. glued w (take k ws) ∷ cs)
                (last-pack m (suc k) (w ∷ ws) more (leb (length (w ∷ ws)) (suc k)) refl rest)))

given : (m d : ℕ) → 0 < m → or_default (pos m) d ≡ m
given m d h = ground arith

-- Where the overlap is 0 and the limit is positive, the two ways of chunking give the same chunks.
pub chunk_text_same :
    (text : Text) (m : ℕ) → 0 < m → chunk_text text (pos m) (pos 0) ≡ chunk_payload text (pos m)
unfolding chunk_text chunk_payload
chunk_text_same text m h = elim (Bool-cases (is_empty (trim_space text))) [
  | inl e ↦ rw e refl
  | inr e ↦
      let words = fields text in
      rw (e, fields-trim_space, given m default_max_len h, given m default_chunk_size h)
        (sym (windows-pack (length words) m words (fields-IsWord text) (omega arith)))
]
