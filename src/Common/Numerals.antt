-- ===== src/Common/Numerals.antt =====
-- Decimal numerals in texts: `${n}` and `parseInt`, without a sign; and other searches in texts.
use Prim.Native.Nat.{ℕ, zero, suc, ◌+◌, ◌-◌, ◌*◌, ◌/◌, ◌%◌}
use Prim.Native.Nat.{◌≤◌, ◌<◌}
use mathlib.Core.Path.{◌≡◌, refl, ◌∙◌}
use mathlib.Core.Logic.{◌≢◌, inl, inr}
use native.Mathlib.Omega.{arith}
use mathlib.Core.Bool.{Bool, true, false, ◌&&◌, ◌||◌, not}
use mathlib.Core.Option.{Option, none, some}
use mathlib.Core.List.{List, [], ◌∷◌, ◌++◌, reverse}
use korechat.Common.Tests.{Bool-cases, leb, ltb, if◌then◌else◌}
use korechat.Common.Texts.{Text, is_empty, starts_with}
use korechat.Common.Whitespace.{is_white, trim_start}

-- The integers, over the native numbers: `negsuc n` is `-(n + 1)`.
pub data ℤ : Type 0 where
  pos : ℕ → ℤ
  negsuc : ℕ → ℤ

unfoldable pub is_digit : ℕ → Bool
is_digit c = leb b'0' c && leb c b'9'

-- `/^\d+$/.test(s)`
abbrev pub all_digits : Text → Bool
all_digits [] = true
all_digits (c ∷ s) = is_digit c && all_digits s

unfoldable pub is_numeral : Text → Bool
unfolding is_digit
is_numeral s = not (is_empty s) && all_digits s

show_loop : ℕ → ℕ → Text
show_loop zero n = []
show_loop (suc fuel) n = elim (ltb n 10) [
  | true ↦ (b'0' + n) ∷ []
  | false ↦ show_loop fuel (n / 10) ++ (b'0' + n % 10) ∷ []
]

-- `${n}`
unfoldable pub show_nat : ℕ → Text
unfolding show_loop
show_nat n = show_loop (suc n) n

read_digits : ℕ → Text → ℕ
read_digits acc [] = acc
read_digits acc (c ∷ s) =
    let rest = read_digits (acc * 10 + (c - b'0')) s in if is_digit c then rest else acc

-- `parseInt(s)`; `none` is `NaN`.
unfoldable pub parse_int : Text → Option ℕ
unfolding read_digits is_digit trim_start is_white
parse_int s = elim (trim_start s) [
  | [] ↦ none
  | c ∷ t ↦ if is_digit c then some (read_digits 0 (c ∷ t)) else none
]

-- `s.endsWith(p)`
unfoldable pub ends_with : Text → Text → Bool
ends_with s p = starts_with (reverse s) (reverse p)

-- `s.includes(p)`
unfoldable pub includes : Text → Text → Bool
includes [] p = is_empty p
includes (c ∷ s) p = starts_with (c ∷ s) p || includes s p

-- `xs.join(sep)`
unfoldable pub join : Text → List Text → Text
join sep [] = []
join sep (x ∷ []) = x
join sep (x ∷ y ∷ xs) = x ++ (sep ++ join sep (y ∷ xs))

-- `toLowerCase` on ASCII letters; other characters are left as they are.
unfoldable pub lower : Text → Text
lower [] = []
lower (c ∷ s) = (if leb b'A' c && leb c b'Z' then c + 32 else c) ∷ lower s

-- the characters before the first that fails `p`
abbrev pub span : (ℕ → Bool) → Text → Text
span p [] = []
span p (c ∷ s) = if p c then c ∷ span p s else []

abbrev skip : ℕ → Text → Text
skip zero t = t
skip (suc k) [] = []
skip (suc k) (d ∷ t) = skip k t

-- The group of `s.match(/label(p+)/)`: the first place where `label` stands before such a character.
unfoldable pub match_after : Text → ℕ → (ℕ → Bool) → Text → Option Text
match_after label n p [] = none
match_after label n p (c ∷ s) =
    let rest = match_after label n p s in
    if starts_with (c ∷ s) label
    then elim (span p (skip n (c ∷ s))) [ [] ↦ rest | d ∷ w ↦ some (d ∷ w) ]
    else rest

-- The number that digits stand for, behind a number that stands before them.
abbrev pub value : ℕ → Text → ℕ
value acc [] = acc
value acc (c ∷ s) = value (acc * 10 + (c - b'0')) s

value-append : (s t : Text) (acc : ℕ) → value acc (s ++ t) ≡ value (value acc s) t
value-append [] t acc = refl
value-append (c ∷ s) t acc = value-append s t _

all_digits-append :
    (s t : Text) → all_digits s ≡ true → all_digits t ≡ true → all_digits (s ++ t) ≡ true
all_digits-append [] t h k = k
all_digits-append (c ∷ s) t h k = ground (arith, all_digits-append s t)

-- A text of digits, one at least, that stand for the number.
pub record Writes (n : ℕ) (s : Text) : Type 0 where
  pub digits : all_digits s ≡ true
  pub number : value 0 s ≡ n
  pub not_empty : s ≢ []

append_not_empty : (s : Text) (c : ℕ) → s ++ c ∷ [] ≢ []
append_not_empty [] c e = cc
append_not_empty (d ∷ s) c e = cc

show_loop-Writes : (fuel n : ℕ) → n < fuel → Writes n (show_loop fuel n)
unfolding show_loop is_digit
show_loop-Writes zero n h = absurd (omega arith)
show_loop-Writes (suc fuel) n h = elim (Bool-cases (ltb n 10)) [
  | inl e ↦
      rw (e, show_loop)
        (record { digits = ground arith; number = omega arith; not_empty = λ k. cc })
  | inr e ↦
      let big : 10 ≤ n = ground arith in
      let ih = show_loop-Writes fuel (n / 10) (omega arith) in
      let d : ℕ = b'0' + n % 10 in
      rw (e, show_loop)
        (record {
          digits = all_digits-append (show_loop fuel (n / 10)) (d ∷ []) ih.digits (ground arith);
          number = value-append (show_loop fuel (n / 10)) (d ∷ []) 0 ∙ rw (ih.number) (omega arith);
          not_empty = append_not_empty (show_loop fuel (n / 10)) d;
        })
]

-- A number that is shown is written in digits.
pub show_nat-Writes : (n : ℕ) → Writes n (show_nat n)
unfolding show_nat
show_nat-Writes n = show_loop-Writes (suc n) n (omega arith)
