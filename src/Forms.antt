-- ===== src/Forms.antt =====
-- The forms of frontend/app.jsx: what their fields are read as, and the page around a request.
pub mod Networks
pub mod Accounts
pub mod Numbers
pub mod Checked
pub mod Saved
pub mod Reopened
pub mod Tests
use korechat.Common.{
  ℤ, pos, negsuc, ℕ, zero, suc, ◌+◌, ◌-◌, ◌*◌, ◌++◌, ◌∷◌, [], Text, lit, is_empty, is_digit, trim,
  trim_start, keep, map, List, leb, ltb, show_nat, Bool, true, false, not, ◌&&◌, ◌||◌, ◌==◌, Option,
  none, some, if◌then◌else◌,
}

unfoldable pub read_digits : ℕ → Text → ℕ
read_digits acc [] = acc
read_digits acc (c ∷ s) =
    let rest = read_digits (acc * 10 + (c - b'0')) s in if is_digit c then rest else acc

abbrev is_hex_digit : ℕ → Bool
is_hex_digit c = is_digit c || ((leb b'a' c && leb c b'f') || (leb b'A' c && leb c b'F'))

abbrev hex_value : ℕ → ℕ
hex_value c = if is_digit c then c - b'0' else if leb b'a' c then c - b'a' + 10 else c - b'A' + 10

read_hex : ℕ → Text → ℕ
read_hex acc [] = acc
read_hex acc (c ∷ s) =
    let rest = read_hex (acc * 16 + hex_value c) s in if is_hex_digit c then rest else acc

-- Hexadecimal digits behind `0x`.
abbrev hex_digits : Text → Option ℕ
hex_digits [] = none
hex_digits (c ∷ s) = if is_hex_digit c then some (read_hex 0 (c ∷ s)) else none

abbrev pub is_x : ℕ → Bool
is_x c = c == b'x' || c == b'X'

-- Digits, hexadecimal ones if `0x` stands before them.
unfoldable pub unsigned : Text → Option ℕ
unfolding read_digits read_hex
unsigned [] = none
unsigned (c ∷ []) = if is_digit c then some (read_digits 0 (c ∷ [])) else none
unsigned (c ∷ x ∷ s) =
    if c == b'0' && is_x x
    then hex_digits s
    else if is_digit c
    then some (read_digits 0 (c ∷ x ∷ s))
    else none

abbrev negative : ℕ → ℤ
negative zero = pos 0
negative (suc n) = negsuc n

abbrev pub signed : Text → Option ℤ
signed [] = none
signed (c ∷ s) =
    if c == b'-'
    then elim (unsigned s) [ none ↦ none | some n ↦ some (negative n) ]
    else elim (unsigned (if c == b'+' then s else c ∷ s)) [ none ↦ none | some n ↦ some (pos n) ]

-- `Number.isSafeInteger(n)`: the double of the integer is the integer.
abbrev pub is_safe : ℤ → Bool
is_safe (pos n) = ltb n 9007199254740992
is_safe (negsuc n) = ltb (suc n) 9007199254740992

-- What `parseInt` gives for the digits of an integer: the integer itself if it is safe, and otherwise
-- the double near it, or an infinity, which the built-in chooses; `far n` stands for that one.
pub data Number : Type 0 where
  exact far : ℤ → Number

abbrev pub number : ℤ → Number
number n = if is_safe n then exact n else far n

abbrev pub number_or_nan : Option ℤ → Option Number
number_or_nan none = none
number_or_nan (some n) = some (number n)

-- `parseInt(s)`; `none` is `NaN`.
unfoldable pub parse_int : Text → Option Number
unfolding unsigned
parse_int s = number_or_nan (signed (trim_start s))

-- `String(n)` of a safe integer
abbrev pub show_int : ℤ → Text
show_int (pos n) = show_nat n
show_int (negsuc n) = b'-' ∷ show_nat (suc n)

-- `String(n)`; `write` is what it gives for the double of an integer that is not safe, as "1e+21".
abbrev pub show_number : (ℤ → Text) → Number → Text
show_number write (exact n) = show_int n
show_number write (far n) = write n

-- `n || 6667`; `NaN` and zero are falsy.
abbrev pub port_or : Option Number → Number
port_or none = exact (pos 6667)
port_or (some (exact (pos zero))) = exact (pos 6667)
port_or (some (exact (pos (suc n)))) = exact (pos (suc n))
port_or (some (exact (negsuc n))) = exact (negsuc n)
port_or (some (far n)) = far n

-- `s.split(",")`: the first piece and the others.
abbrev pub cons_piece : ℕ → List Text → List Text
cons_piece c [] = (c ∷ []) ∷ []
cons_piece c (p ∷ ps) = (c ∷ p) ∷ ps

unfoldable pub split_commas : Text → List Text
split_commas [] = [] ∷ []
split_commas (c ∷ s) =
    let rest = split_commas s in if c == b',' then [] ∷ rest else cons_piece c rest

-- The field `auto_join`: `split(",").map(s => s.trim()).filter(Boolean)`, and none if it is empty.
unfoldable pub channels_of : Text → List Text
unfolding split_commas
channels_of s = if is_empty s then [] else keep (λ t. not (is_empty t)) (map trim (split_commas s))

-- What a form does when it is sent: it shows an error, or makes a request.
pub data Submitted (R : Type 0) : Type 0 where
  refused : Text → Submitted R
  requests : R → Submitted R

-- `busy` (or `saving`) and `err`.
pub record Page : Type 0 where
  pub busy : Bool
  pub err : Text

-- `setErr("")`, and then either `setErr` of the reason or `setBusy(true)`.
unfoldable pub submitted : {R : Type 0} → Submitted R → Page → Page
submitted (refused e) page = record page { err = e }
submitted (requests r) page = record page { busy = true; err = [] }

-- What comes back: the object's `error`, with the object, or an exception inside of the `try` with
-- the text that the handler shows for it.
pub data Reply (A : Type 0) : Type 0 where
  object : Text → A → Reply A
  throws : Text → Reply A

-- The callback is called with the object if it has no error; `finally` ends the wait in every case.
unfoldable pub answered : {A : Type 0} → Reply A → Page → Page × Option A
answered (object [] a) page = (record page { busy = false }, some a)
answered (object (c ∷ e) a) page = (record page { busy = false; err = c ∷ e }, none)
answered (throws e) page = (record page { busy = false; err = e }, none)
