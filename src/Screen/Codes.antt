-- ===== src/Screen/Codes.antt =====
-- The control codes of IRC that `renderText` of frontend/app.jsx takes out of a text.
use korechat.Common.{
  ℕ, ◌∷◌, [], ◌≡◌, refl, Text, is_digit, Bool, Bool-cases, true, false, not, ◌&&◌, ◌||◌, ◌==◌, keep,
  any, inl, inr, arith,
}

-- How far the expression `\x03(\d{1,2}(,\d{1,2})?)?` has matched: not at all, after the code, after
-- one or two digits, after the comma, and after the first digit behind it.
pub data Match : Type 0 where
  outside code one_digit two_digits comma last_digit : Match

-- Whether a digit comes next.
abbrev digit_next : Text → Bool
digit_next [] = false
digit_next (c ∷ s) = is_digit c

-- `text.replace(/\x03(\d{1,2}(,\d{1,2})?)?/g, "")`
unfoldable pub drop_colors : Match → Text → Text
drop_colors m [] = []
drop_colors outside (c ∷ s) = elim (c == 3) [
  | true ↦ drop_colors code s
  | false ↦ c ∷ drop_colors outside s
]
drop_colors code (c ∷ s) = elim (is_digit c) [
  | true ↦ drop_colors one_digit s
  | false ↦ elim (c == 3) [ true ↦ drop_colors code s | false ↦ c ∷ drop_colors outside s ]
]
drop_colors one_digit (c ∷ s) = elim (is_digit c) [
  | true ↦ drop_colors two_digits s
  | false ↦ elim (c == b',' && digit_next s) [
    | true ↦ drop_colors comma s
    | false ↦ elim (c == 3) [ true ↦ drop_colors code s | false ↦ c ∷ drop_colors outside s ]
  ]
]
drop_colors two_digits (c ∷ s) = elim (c == b',' && digit_next s) [
  | true ↦ drop_colors comma s
  | false ↦ elim (c == 3) [ true ↦ drop_colors code s | false ↦ c ∷ drop_colors outside s ]
]
drop_colors comma (c ∷ s) = drop_colors last_digit s
drop_colors last_digit (c ∷ s) = elim (is_digit c) [
  | true ↦ drop_colors outside s
  | false ↦ elim (c == 3) [ true ↦ drop_colors code s | false ↦ c ∷ drop_colors outside s ]
]

-- `[\x02\x1D\x1F\x16\x11\x0F]`
unfoldable pub is_style : ℕ → Bool
is_style c = c == 2 || (c == 29 || (c == 31 || (c == 22 || (c == 17 || c == 15))))

-- The text that `renderText` goes on with.
unfoldable pub strip_codes : Text → Text
unfolding drop_colors is_style
strip_codes text = keep (λ c. not (is_style c)) (drop_colors outside text)

-- One of the seven control codes.
abbrev pub is_code : ℕ → Bool
is_code c = c == 3 || is_style c

drop_colors-clean : (m : Match) (s : Text) → any (λ c. c == 3) (drop_colors m s) ≡ false
unfolding drop_colors
drop_colors-clean m [] = refl
drop_colors-clean outside (c ∷ s) =
    ground (arith, drop_colors-clean code s, drop_colors-clean outside s)
drop_colors-clean code (c ∷ s) =
    ground
      (arith, drop_colors-clean one_digit s, drop_colors-clean code s, drop_colors-clean outside s)
drop_colors-clean one_digit (c ∷ s) = ground (
  arith,
  drop_colors-clean two_digits s,
  drop_colors-clean comma s,
  drop_colors-clean code s,
  drop_colors-clean outside s,
)
drop_colors-clean two_digits (c ∷ s) =
    ground (arith, drop_colors-clean comma s, drop_colors-clean code s, drop_colors-clean outside s)
drop_colors-clean comma (c ∷ s) = drop_colors-clean last_digit s
drop_colors-clean last_digit (c ∷ s) =
    ground (arith, drop_colors-clean code s, drop_colors-clean outside s)

any-keep :
    (p q : ℕ → Bool) (s : Text)
    → any p s ≡ false
    → any (λ c. p c || q c) (keep (λ c. not (q c)) s) ≡ false
any-keep p q [] h = refl
any-keep p q (c ∷ s) h = elim (Bool-cases (q c)) [
  | inl e ↦ rw e (any-keep p q s (ground arith))
  | inr e ↦
      let rest : any (λ x. p x || q x) (keep (λ x. not (q x)) s) ≡ false =
        any-keep p q s (ground arith) in
      rw e (ground arith)
]

drop_colors_plain : (s : Text) → any is_code s ≡ false → drop_colors outside s ≡ s
unfolding drop_colors is_style
drop_colors_plain [] h = refl
drop_colors_plain (c ∷ s) h = ground (arith, drop_colors_plain s)

keep_plain : (s : Text) → any is_code s ≡ false → keep (λ c. not (is_style c)) s ≡ s
unfolding is_style
keep_plain [] h = refl
keep_plain (c ∷ s) h = ground (arith, keep_plain s)

-- What is left of any text has none of the seven control codes, and a text that has none is left as
-- it is.
pub strip_codes-clean :
    (text : Text)
    → (any is_code (strip_codes text) ≡ false)
      × (any is_code text ≡ false → strip_codes text ≡ text)
unfolding strip_codes
strip_codes-clean text = (
  any-keep (λ c. c == 3) is_style (drop_colors outside text) (drop_colors-clean outside text),
  λ h. rw (drop_colors_plain text h) (keep_plain text h),
)
