-- ===== src/Backend/Noise.antt =====
-- backend/util/apiutil/text.go: the tests for text that is noise and for text that can be read.
--
-- The source compares quotients of counts, as `float64`, with constants of two decimals. Such a
-- quotient is correctly rounded, so for counts below 2^40 the comparison is that of the fractions,
-- which is written out here.
use fine_rag_core.Prelude.{
  ℕ, ◌+◌, ◌*◌, Bool, true, false, not, ◌&&◌, ◌||◌, List, [], ◌∷◌, length, keep, is_empty, ltb, leb,
  ◌==◌, if◌then◌else◌,
}
use fine_rag_core.Text.{Text, txt, fields, byte_len, is_blank, is_ascii_digit}

abbrev pub in_text : Text → ℕ → Bool
in_text [] c = false
in_text (d ∷ t) c = c == d || in_text t c

abbrev pub is_ascii_letter : ℕ → Bool
is_ascii_letter c = (leb b'a' c && leb c b'z') || (leb b'A' c && leb c b'Z')

-- Whether `n` symbols in a row pass a test; `k` is how many have just done so.
unfoldable pub has_run : (ℕ → Bool) → ℕ → ℕ → Text → Bool
has_run p n k [] = leb n k
has_run p n k (c ∷ s) =
    let longer = has_run p n (k + 1) s in
    let again = has_run p n 0 s in leb n k || (if p c then longer else again)

-- `NoisySequenceRegexp.MatchString`
unfoldable pub noisy_sequence : Text → Bool
unfolding has_run txt
noisy_sequence s =
    has_run (λ c. is_ascii_letter c || is_ascii_digit c || in_text (txt "+/=") c) 36 0 s
    || has_run (in_text (txt "{}<>|~^")) 2 0 s

-- The symbols that `IsLikelyNoisyText` does not count as symbols.
unfoldable pub is_punctuation : ℕ → Bool
unfolding txt
is_punctuation = in_text (txt "_-.,:;?!/()[]'\"")

unfoldable pub max_int_of : ℕ → ℕ → ℕ
max_int_of a b = if ltb b a then a else b

abbrev pub count_runes : (ℕ → Bool) → Text → ℕ
count_runes p s = length (keep p s)

-- A counter of the loops over the runes of the tokens.
abbrev pub count_all : (ℕ → Bool) → List Text → ℕ
count_all p [] = 0
count_all p (t ∷ ts) = count_runes p t + count_all p ts

abbrev pub is_alnum : ℕ → Bool
is_alnum c = is_ascii_letter c || is_ascii_digit c

-- `float64(tokenAlpha) / float64(MaxInt(tokenAlnum, 1)) < 0.35` of a long token
unfoldable pub is_suspicious : Text → Bool
unfolding max_int_of
is_suspicious token =
    leb 24 (byte_len token)
    && ltb (count_runes is_ascii_letter token * 100)
        (35 * max_int_of (count_runes is_alnum token) 1)

-- The four tests of the ratios.
unfoldable pub noisy_ratios : ℕ → ℕ → ℕ → ℕ → ℕ → ℕ → Bool
noisy_ratios alpha alnum total suspicious tokens symbol =
    ltb (alpha * 100) (28 * total)
    || ltb (alnum * 100) (45 * total)
    || ltb (25 * tokens) (suspicious * 100)
    || ltb (18 * total) (symbol * 100)

unfoldable pub is_likely_noisy_text : Text → Bool
unfolding noisy_sequence is_punctuation is_suspicious noisy_ratios
is_likely_noisy_text text =
    let tokens = fields text in
    let total = count_all (λ c. true) tokens in
    if is_empty text
    then true
    else if leb 64 (byte_len text) && noisy_sequence text
    then true
    else if is_empty tokens
    then true
    else if total == 0
    then true
    else noisy_ratios (count_all is_ascii_letter tokens) (count_all is_alnum tokens) total
        (length (keep is_suspicious tokens)) (length tokens)
        (count_all (λ c. not (is_alnum c) && not (is_punctuation c)) tokens)

unfoldable pub has_readable_signal : Text → Bool
has_readable_signal text =
    let letters = count_runes is_ascii_letter text in
    let total = length text in
    if is_blank text
    then false
    else if total == 0 || letters == 0
    then false
    else leb (15 * total) (letters * 100)
