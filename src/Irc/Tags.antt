-- ===== src/Irc/Tags.antt =====
-- The value of a tag: what the backend escapes and the client takes back.
use korechat.Common.{
  ℕ, ◌++◌, ◌∷◌, [], ◌≡◌, ◌≢◌, ◌⊎◌, refl, Text, Dict, put, is_empty, false, ◌==◌, if◌then◌else◌,
  arith,
}
use korechat.Irc.{replace_pair, unescape, add_tag}
use korechat.Irc.Words.{Without, break_at-append, break_at-none}
use korechat.Irc.Format.{replace_char, escape_tag_value, format_tag}

pub replace_pair-other :
    (x y c : ℕ) (s : Text) → c ≢ b'\\' → replace_pair x y (c ∷ s) ≡ c ∷ replace_pair x y s
unfolding replace_pair
replace_pair-other x y c [] h = refl
replace_pair-other x y c (d ∷ s) h = ground arith

replace_pair-hit : (x y : ℕ) (s : Text) → replace_pair x y (b'\\' ∷ x ∷ s) ≡ y ∷ replace_pair x y s
unfolding replace_pair
replace_pair-hit x y s = ground arith

replace_pair-miss :
    (x y d : ℕ) (s : Text)
    → d ≢ x
    → d ≢ b'\\'
    → replace_pair x y (b'\\' ∷ d ∷ s) ≡ b'\\' ∷ d ∷ replace_pair x y s
unfolding replace_pair
replace_pair-miss x y d [] h k = ground arith
replace_pair-miss x y d (e ∷ s) h k = ground arith

-- How the client reads each form, one character at a time.
unescape-other : (c : ℕ) (s : Text) → c ≢ b'\\' → unescape (c ∷ s) ≡ c ∷ unescape s
unfolding unescape
unescape-other c s h = rw (
  replace_pair-other _ _ c _ h,
  replace_pair-other _ _ c _ h,
  replace_pair-other _ _ c _ h,
  replace_pair-other _ _ c _ h,
  replace_pair-other _ _ c _ h,
)

unescape-colon : (s : Text) → unescape (b'\\' ∷ b':' ∷ s) ≡ b';' ∷ unescape s
unfolding unescape
unescape-colon s = rw replace_pair-hit (
    rw (
      replace_pair-other _ _ b';' _ (omega arith),
      replace_pair-other _ _ b';' _ (omega arith),
      replace_pair-other _ _ b';' _ (omega arith),
      replace_pair-other _ _ b';' _ (omega arith),
    ))

unescape-space : (s : Text) → unescape (b'\\' ∷ b's' ∷ s) ≡ b' ' ∷ unescape s
unfolding unescape
unescape-space s =
    rw (replace_pair-miss b':' _ b's' _ (omega arith) (omega arith), replace_pair-hit)
      (rw (
        replace_pair-other _ _ b' ' _ (omega arith),
        replace_pair-other _ _ b' ' _ (omega arith),
        replace_pair-other _ _ b' ' _ (omega arith),
      ))

unescape-cr : (s : Text) → unescape (b'\\' ∷ b'r' ∷ s) ≡ 13 ∷ unescape s
unfolding unescape
unescape-cr s =
    rw
      (
        replace_pair-miss b':' _ b'r' _ (omega arith) (omega arith),
        replace_pair-miss b's' _ b'r' _ (omega arith) (omega arith),
        replace_pair-hit,
      )
      (rw (replace_pair-other _ _ 13 _ (omega arith), replace_pair-other _ _ 13 _ (omega arith)))

unescape-lf : (s : Text) → unescape (b'\\' ∷ b'n' ∷ s) ≡ 10 ∷ unescape s
unfolding unescape
unescape-lf s =
    rw
      (
        replace_pair-miss b':' _ b'n' _ (omega arith) (omega arith),
        replace_pair-miss b's' _ b'n' _ (omega arith) (omega arith),
        replace_pair-miss b'r' _ b'n' _ (omega arith) (omega arith),
        replace_pair-hit,
      )
      (rw (replace_pair-other _ _ 10 _ (omega arith)))

-- The form that the backend gives a character other than the backslash.
escape_char : ℕ → Text
escape_char c =
    if c == b';'
    then b'\\' ∷ b':' ∷ []
    else if c == b' '
    then b'\\' ∷ b's' ∷ []
    else if c == 13
    then b'\\' ∷ b'r' ∷ []
    else if c == 10
    then b'\\' ∷ b'n' ∷ []
    else c ∷ []

escape-cons :
    (c : ℕ) (s : Text) → c ≢ b'\\' → escape_tag_value (c ∷ s) ≡ escape_char c ++ escape_tag_value s
unfolding escape_tag_value replace_char escape_char
escape-cons c s h = ground arith

unescape-escape_char :
    (c : ℕ) (s : Text) → c ≢ b'\\' → unescape (escape_char c ++ s) ≡ c ∷ unescape s
unfolding escape_char
unescape-escape_char c s h =
    ground (
      arith,
      unescape-colon s,
      unescape-space s,
      unescape-cr s,
      unescape-lf s,
      unescape-other c s h,
    )

-- The client takes back exactly the tag value that the backend escaped, if it has no backslash.
pub unescape-escape : (v : Text) → Without b'\\' v → unescape (escape_tag_value v) ≡ v
unescape-escape [] h = unfold unescape escape_tag_value replace_char replace_pair in refl
unescape-escape (c ∷ v) h =
    rw (escape-cons c v h.0, unescape-escape_char c _ h.0, unescape-escape v h.1)

replace_pair-backslash :
    (x y : ℕ) (s : Text)
    → x ≢ b'\\'
    → replace_pair x y (b'\\' ∷ b'\\' ∷ s) ≡ b'\\' ∷ replace_pair x y (b'\\' ∷ s)
unfolding replace_pair
replace_pair-backslash x y s h = ground arith

escape-backslash : (s : Text) → escape_tag_value (b'\\' ∷ s) ≡ b'\\' ∷ b'\\' ∷ escape_tag_value s
unfolding escape_tag_value replace_char
escape-backslash s = refl

-- The first replacement of "\\s" takes the second backslash of an escaped one for its own.
unescape-backslash_space :
    (s : Text) → unescape (b'\\' ∷ b'\\' ∷ b's' ∷ s) ≡ b'\\' ∷ b' ' ∷ unescape s
unfolding unescape
unescape-backslash_space s = rw (
  replace_pair-backslash b':' _ _ (omega arith),
  replace_pair-miss b':' _ b's' _ (omega arith) (omega arith),
  replace_pair-backslash b's' _ _ (omega arith),
  replace_pair-hit,
  replace_pair-miss b'r' _ b' ' _ (omega arith) (omega arith),
  replace_pair-miss b'n' _ b' ' _ (omega arith) (omega arith),
  replace_pair-miss b'\\' _ b' ' _ (omega arith) (omega arith),
)

-- A tag value that begins with a backslash and an "s", with no backslash behind, comes back with a
-- space in place of the "s".
pub unescape-escape_backslash :
    (v : Text) → Without b'\\' v → unescape (escape_tag_value (b'\\' ∷ b's' ∷ v)) ≡ b'\\' ∷ b' ' ∷ v
unescape-escape_backslash v h =
    rw (escape-backslash, escape-cons b's' v (omega arith))
      (unfold escape_char in rw (unescape-backslash_space, unescape-escape v h))

Without-escape_char :
    (d c : ℕ) (r : Text)
    → (d ≡ b';') ⊎ (d ≡ b' ')
    → c ≢ b'\\'
    → Without d r
    → Without d (escape_char c ++ r)
unfolding escape_char
Without-escape_char d c r e h k = ground arith

-- An escaped value has neither the separator of tags nor a space.
pub escape-Without :
    (d : ℕ) (v : Text) → (d ≡ b';') ⊎ (d ≡ b' ') → Without b'\\' v → Without d (escape_tag_value v)
escape-Without d [] e h = unfold escape_tag_value replace_char in tt
escape-Without d (c ∷ v) e h =
    rw (escape-cons c v h.0) (Without-escape_char d c _ e h.0 (escape-Without d v e h.1))

-- A tag that the backend can send and the client reads back: a key that is not empty and has no
-- "=", ";" or space, and a value without a backslash.
pub record IsTag (k v : Text) : Type 0 where
  pub named : is_empty k ≡ false
  pub no_equals : Without b'=' k
  pub no_semicolon : Without b';' k
  pub no_space : Without b' ' k
  pub plain : Without b'\\' v

pub Without-append : (d : ℕ) (s t : Text) → Without d s → Without d t → Without d (s ++ t)
Without-append d [] t h k = k
Without-append d (c ∷ s) t h k = (h.0, Without-append d s t h.1 k)

pub format_tag-Without :
    (d : ℕ) (k v : Text)
    → (d ≡ b';') ⊎ (d ≡ b' ')
    → Without d k
    → Without b'\\' v
    → Without d (format_tag k v)
unfolding format_tag is_empty
format_tag-Without d k [] e h p = h
format_tag-Without d k (c ∷ v) e h p =
    Without-append d k _ h (ground arith, escape-Without d (c ∷ v) e p)

-- The client stores the tag that the backend wrote.
pub add_tag-format_tag :
    (k v : Text) (tags : Dict Text) → IsTag k v → add_tag (format_tag k v) tags ≡ put k v tags
unfolding add_tag format_tag is_empty
add_tag-format_tag k [] tags h =
    let e : is_empty k ≡ false = h.named in
    rw (break_at-none b'=' k h.no_equals, add_tag) (ground arith)
add_tag-format_tag k (c ∷ v) tags h =
    let e : is_empty k ≡ false = h.named in
    rw (break_at-append b'=' k _ h.no_equals, add_tag)
      (rw (unescape-escape (c ∷ v) h.plain) (ground arith))
