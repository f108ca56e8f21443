-- ===== src/Irc/Format.antt =====
-- `Format` and `escapeTagValue` of pkg/ircv3/message.go, which write the lines that the client
-- parses. A Go map is walked in some order: here in the order of the list.
use korechat.Common.{
  ℕ, ◌++◌, ◌∷◌, [], Text, is_empty, Dict, List, Bool, false, ◌||◌, ◌==◌, if◌then◌else◌,
}
use korechat.Irc.{Msg}

-- `strings.ReplaceAll` of one character
unfoldable pub replace_char : ℕ → Text → Text → Text
replace_char x w [] = []
replace_char x w (c ∷ s) = let rest = replace_char x w s in if c == x then w ++ rest else c ∷ rest

unfoldable pub escape_tag_value : Text → Text
escape_tag_value s = replace_char 10 (b'\\' ∷ b'n' ∷ []) (
    replace_char 13 (b'\\' ∷ b'r' ∷ []) (
      replace_char b' ' (b'\\' ∷ b's' ∷ [])
        (replace_char b';' (b'\\' ∷ b':' ∷ []) (replace_char b'\\' (b'\\' ∷ b'\\' ∷ []) s))))

unfoldable pub format_tag : Text → Text → Text
format_tag k v = if is_empty v then k else k ++ (b'=' ∷ escape_tag_value v)

unfoldable pub format_tags : Dict Text → Text
format_tags [] = []
format_tags ((k, v) ∷ []) = format_tag k v
format_tags ((k, v) ∷ t ∷ ts) = format_tag k v ++ (b';' ∷ format_tags (t ∷ ts))

abbrev pub has_space : Text → Bool
has_space [] = false
has_space (c ∷ s) = c == b' ' || has_space s

abbrev pub starts_colon : Text → Bool
starts_colon [] = false
starts_colon (c ∷ s) = c == b':'

unfoldable pub format_last : Text → Text
format_last p = if has_space p || starts_colon p || is_empty p then b':' ∷ p else p

unfoldable pub format_params : List Text → Text
format_params [] = []
format_params (p ∷ []) = b' ' ∷ format_last p
format_params (p ∷ q ∷ ps) = b' ' ∷ (p ++ format_params (q ∷ ps))

abbrev pub format_prefix : Text → Text → Text
format_prefix [] rest = rest
format_prefix (c ∷ s) rest = b':' ∷ (c ∷ s) ++ (b' ' ∷ rest)

unfoldable pub format : Msg → Text
format msg =
    let rest = format_prefix msg.prefix (msg.command ++ format_params msg.params) in
    elim msg.tags [ [] ↦ rest | t ∷ ts ↦ b'@' ∷ (format_tags (t ∷ ts) ++ (b' ' ∷ rest)) ]
