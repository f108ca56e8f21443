-- ===== src/Common/Worded.antt =====
-- Texts of words: trimming and splitting one that begins with a word.
use Prim.Native.Nat.{ℕ}
use mathlib.Core.Path.{◌≡◌, refl, sym, ap, ◌∙◌}
use mathlib.Core.Bool.{false}
use mathlib.Core.List.{append-nil, List, [], ◌∷◌, ◌++◌}
use native.Mathlib.Omega.{arith}
use korechat.Common.Lists.{any}
use korechat.Common.Texts.{Text, is_empty}
use korechat.Common.Whitespace.{
  is_white, cons_trimmed, trim_end, trim_start, trim, words_from, words, push_word,
}

-- A word: it is not empty and has no white space.
abbrev pub IsSolid : Text → Type 0
IsSolid w = (is_empty w ≡ false) × (any is_white w ≡ false)

trim_end_first : (c : ℕ) (s : Text) → is_white c ≡ false → trim_end (c ∷ s) ≡ c ∷ trim_end s
unfolding trim_end
trim_end_first c s h = first (trim_end s)
  where
    first : (t : Text) → cons_trimmed c t ≡ c ∷ t
    first [] = rw h
    first (d ∷ t) = refl

trim_end_word : (w t : Text) → any is_white w ≡ false → trim_end (w ++ t) ≡ w ++ trim_end t
trim_end_word [] t h = refl
trim_end_word (c ∷ w) t h =
    trim_end_first c (w ++ t) (ground arith) ∙ ap (◌∷◌ c) (trim_end_word w t (ground arith))

trim_end_space : (w t : Text) → IsSolid w → trim_end (b' ' ∷ (w ++ t)) ≡ b' ' ∷ (w ++ trim_end t)
unfolding trim_end is_empty
trim_end_space [] t h = cc
trim_end_space (c ∷ w) t h = ap (cons_trimmed b' ') (trim_end_word (c ∷ w) t h.1)

trim_start_word : (w t : Text) → IsSolid w → trim_start (w ++ t) ≡ w ++ t
unfolding trim_start is_empty
trim_start_word [] t h = cc
trim_start_word (c ∷ w) t h = let b : is_white c ≡ false = ground arith in rw b

-- Two words in front stay as they are.
pub trim_words :
    (v w t : Text)
    → IsSolid v
    → IsSolid w
    → trim (v ++ b' ' ∷ (w ++ t)) ≡ v ++ b' ' ∷ (w ++ trim_end t)
unfolding trim
trim_words v w t h k =
    ap trim_end (trim_start_word v (b' ' ∷ (w ++ t)) h)
    ∙ trim_end_word v (b' ' ∷ (w ++ t)) h.1
    ∙ ap (λ r. v ++ r) (trim_end_space w t k)

words_from_word :
    (w t : Text)
    → any is_white w ≡ false
    → words_from (w ++ t) ≡ (w ++ (words_from t).0, (words_from t).1)
unfolding words_from
words_from_word [] t h = refl
words_from_word (c ∷ w) t h =
    let b : is_white c ≡ false = ground arith in rw (b, words_from_word w t (ground arith))

words_solid : (w : Text) (ws : List Text) → IsSolid w → push_word w ws ≡ w ∷ ws
unfolding is_empty
words_solid [] ws h = cc
words_solid (c ∷ w) ws h = refl

-- A word, a space and another text.
pub words-word : (w t : Text) → IsSolid w → words (w ++ b' ' ∷ t) ≡ w ∷ words t
unfolding words is_white words_from
words-word w t h =
    rw (words_from_word w (b' ' ∷ t) h.1, append-nil w)
      (words_solid w (push_word (words_from t).0 (words_from t).1) h)

words_alone : (w : Text) → IsSolid w → words (w ++ []) ≡ w ∷ words []
unfolding words words_from
words_alone w h = rw (words_from_word w [] h.1, append-nil w) (words_solid w [] h)

-- A word and what is left of white space and another text behind it.
pub words_last :
    (w t : Text) → IsSolid w → words (w ++ trim_end (b' ' ∷ t)) ≡ w ∷ words (trim_end (b' ' ∷ t))
unfolding trim_end is_white words
words_last w t h = rest (trim_end t)
  where
    rest : (r : Text) → words (w ++ cons_trimmed b' ' r) ≡ w ∷ words (cons_trimmed b' ' r)
    rest [] = words_alone w h
    rest (d ∷ r) = words-word w (d ∷ r) h

-- A word behind a space stays.
pub trim_end_last : (w : Text) → IsSolid w → trim_end (b' ' ∷ w) ≡ b' ' ∷ w
trim_end_last w h =
    ap (λ s. trim_end (b' ' ∷ s)) (sym (append-nil w))
    ∙ trim_end_space w [] h
    ∙ (unfold trim_end in ap (λ s. b' ' ∷ s) (append-nil w))
