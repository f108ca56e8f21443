-- ===== src/Forms/Tests.antt =====
-- Forms that are filled in, and the theorems at them.
use korechat.Common.{
  ◌∷◌, [], ◌≡◌, refl, is_empty, trim, trim_start, trim_end, is_white, false, ℤ, Text, lit, is_digit,
}
use korechat.Forms.{Page, parse_int, unsigned, read_digits}
use korechat.Forms.Networks.{Form, blank, body, opened, result, add_network}
use korechat.Forms.Saved.{body-opened-body}
use korechat.Forms.Checked.{IsSettled, add_network-IsSettled}

-- The form for a new network with a nick, and two channels.
abbrev filled : Form
filled = record blank { nick = b'k' ∷ []; auto_join = b'#' ∷ b'a' ∷ b',' ∷ b' ' ∷ b'#' ∷ b'b' ∷ [] }

-- `String` of a double that is not a safe integer.
abbrev write : ℤ → Text
write n = lit "1e+21"

body-opened-body_example : body (opened write (body filled)) ≡ body filled
unfolding blank
body-opened-body_example =
    body-opened-body write filled (unfold is_empty trim trim_start trim_end is_white in refl)
      (unfold parse_int unsigned read_digits is_digit trim_start is_white lit in refl)

abbrev page : Page
page = record { busy = false; err = [] }

add_network-IsSettled_example :
    IsSettled filled (result [] (b'7' ∷ [])) (add_network filled (result [] (b'7' ∷ [])) page)
add_network-IsSettled_example = add_network-IsSettled filled (result [] (b'7' ∷ [])) page refl
