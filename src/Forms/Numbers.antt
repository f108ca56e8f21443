-- ===== src/Forms/Numbers.antt =====
-- Numerals that are shown and read back.
use korechat.Common.{
  ℤ, pos, negsuc, ℕ, suc, ◌+◌, ◌-◌, ◌*◌, ◌∷◌, [], ◌≡◌, ◌≢◌, refl, Text, is_digit, is_white,
  trim_start, show_nat, all_digits, value, show_nat-Writes, Bool, true, false, ◌&&◌, ◌==◌, none,
  some, if◌then◌else◌, arith,
}
use korechat.Forms.{read_digits, unsigned, is_x, signed, number, parse_int, show_int}

read_digits_value : (acc : ℕ) (s : Text) → all_digits s ≡ true → read_digits acc s ≡ value acc s
unfolding read_digits
read_digits_value acc [] h = refl
read_digits_value acc (c ∷ s) h =
    let d : is_digit c ≡ true = ground arith in
    rw d (read_digits_value (acc * 10 + (c - b'0')) s (ground arith))

digit_not_x : (c : ℕ) → is_digit c ≡ true → is_x c ≡ false
unfolding is_digit
digit_not_x c h = ground arith

digit_not_sign : (c : ℕ) → is_digit c ≡ true → ((c == b'-') ≡ false) × ((c == b'+') ≡ false)
unfolding is_digit
digit_not_sign c h = (ground arith, ground arith)

digit_not_white : (c : ℕ) → is_digit c ≡ true → is_white c ≡ false
unfolding is_digit is_white
digit_not_white c h = ground arith

when_digit : (b : Bool) (r v : ℕ) → b ≡ true → r ≡ v → (if b then some r else none) ≡ some v
when_digit b r v h e = rw (h, e)

unsigned_digits : (s : Text) → all_digits s ≡ true → s ≢ [] → unsigned s ≡ some (value 0 s)
unfolding unsigned
unsigned_digits [] h ne = absurd (ne refl)
unsigned_digits (c ∷ []) h ne =
    let d : is_digit c ≡ true = ground arith in
    when_digit (is_digit c) _ _ d (read_digits_value 0 (c ∷ []) h)
unsigned_digits (c ∷ x ∷ s) h ne =
    let d : is_digit c ≡ true = ground arith in
    let d' : is_digit x ≡ true = ground arith in
    let no : (c == b'0' && is_x x) ≡ false = ground (arith, digit_not_x x) in
    rw no (when_digit (is_digit c) _ _ d (read_digits_value 0 (c ∷ x ∷ s) h))

signed_digits : (s : Text) → all_digits s ≡ true → s ≢ [] → signed s ≡ some (pos (value 0 s))
signed_digits [] h ne = absurd (ne refl)
signed_digits (c ∷ s) h ne =
    let d : is_digit c ≡ true = ground arith in
    let (m, p) = digit_not_sign c d in rw (m, p, unsigned_digits (c ∷ s) h ne)

trim_start_digits : (s : Text) → all_digits s ≡ true → trim_start s ≡ s
unfolding trim_start
trim_start_digits [] h = refl
trim_start_digits (c ∷ s) h = rw (digit_not_white c (ground arith))

-- `parseInt(String(n))` is `n`, if that is safe.
pub parse_int-show_int : (n : ℤ) → parse_int (show_int n) ≡ some (number n)
unfolding parse_int trim_start is_white
parse_int-show_int (pos n) =
    let w = show_nat-Writes n in
    rw (
      trim_start_digits (show_nat n) w.digits,
      signed_digits (show_nat n) w.digits w.not_empty,
      w.number,
    )
parse_int-show_int (negsuc n) =
    let w = show_nat-Writes (suc n) in
    rw (unsigned_digits (show_nat (suc n)) w.digits w.not_empty, w.number)
