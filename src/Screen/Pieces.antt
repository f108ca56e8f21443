-- ===== src/Screen/Pieces.antt =====
-- `renderText` of frontend/app.jsx: the links, the pictures, the snippets and the mentions of a text.
-- The browser's `URL` is a parameter.
use korechat.Common.{
  ℕ, zero, suc, ◌++◌, ◌∷◌, [], Text, lit, text_eq, starts_with, is_digit, is_white, lower,
  match_after, drop, length, leb, map, List, Bool, true, false, not, ◌&&◌, ◌||◌, ◌==◌, Option, none,
  some, if◌then◌else◌,
}
use korechat.Screen.Codes.{strip_codes}

-- What the regular expressions cut a text into.
pub data Piece : Type 0 where
  plain : Text → Piece
  link : Text → Piece
  mention : Text → Piece

-- `[^\s<>"]`
unfoldable pub is_url_char : ℕ → Bool
is_url_char c = not (is_white c || (c == b'<' || (c == b'>' || c == 34)))

-- `\w`
unfoldable pub is_word_char : ℕ → Bool
is_word_char c =
    is_digit c || ((leb b'A' c && leb c b'Z') || ((leb b'a' c && leb c b'z') || c == b'_'))

-- The characters before the first that fails `p`, and the rest.
unfoldable pub split_at : (ℕ → Bool) → Text → Text × Text
split_at p [] = ([], [])
split_at p (c ∷ s) = let (w, r) = split_at p s in if p c then (c ∷ w, r) else ([], c ∷ s)

-- A prefix, one character of the class at least, and what follows them.
abbrev pub greedy : Text → Text × Text → Option (Text × Text)
greedy start ([], r) = none
greedy start (c ∷ w, r) = some (start ++ c ∷ w, r)

-- `https?:\/\/[^\s<>"]+` at the start of a text.
unfoldable pub url_here : Text → Option (Text × Text)
unfolding split_at is_url_char
url_here s =
    if starts_with s (lit "http://")
    then greedy (lit "http://") (split_at is_url_char (drop 7 s))
    else if starts_with s (lit "https://")
    then greedy (lit "https://") (split_at is_url_char (drop 8 s))
    else none

-- `@(\w+)` at the start of a text.
unfoldable pub mention_here : Text → Option (Text × Text)
unfolding split_at is_word_char
mention_here [] = none
mention_here (c ∷ s) = if c == b'@' then greedy (b'@' ∷ []) (split_at is_word_char s) else none

-- What stands before a match, the match, and what stands behind it.
pub record Found : Type 0 where
  pub before : Text
  pub match : Text
  pub after : Text

abbrev pub here_or : Option (Text × Text) → ℕ → Option Found → Option Found
here_or (some (w, r)) c later = some (record { before = []; match = w; after = r })
here_or none c none = none
here_or none c (some f) = some (record f { before = c ∷ f.before })

-- `exec` of a global expression: the first match.
unfoldable pub exec : (Text → Option (Text × Text)) → Text → Option Found
exec here [] = none
exec here (c ∷ s) = here_or (here (c ∷ s)) c (exec here s)

abbrev pub plain_if : Text → List Piece → List Piece
plain_if [] ps = ps
plain_if (c ∷ s) ps = plain (c ∷ s) ∷ ps

-- The loop of `exec` over a text: each match is a piece, and so is the text between two matches.
unfoldable pub cut :
    (Text → Option (Text × Text)) → (Text → Piece) → (Text → List Piece) → ℕ → Text → List Piece
unfolding exec
cut here piece rest zero s = rest s
cut here piece rest (suc fuel) s = elim (exec here s) [
  | none ↦ rest s
  | some f ↦ plain_if f.before (piece f.match ∷ cut here piece rest fuel f.after)
]

-- The loop over the mentions of `rest`.
unfoldable pub mention_pieces : Text → List Piece
unfolding cut mention_here
mention_pieces rest = cut mention_here mention (λ s. plain_if s []) (length rest) rest

-- The loop over the links; only what stands behind the last of them is searched for mentions.
unfoldable pub pieces : Text → List Piece
unfolding cut url_here mention_pieces
pieces text = cut url_here link mention_pieces (length text) text

-- `[a-zA-Z0-9_-]`
abbrev is_snippet_char : ℕ → Bool
is_snippet_char c = is_word_char c || c == b'-'

abbrev is_found : Option Text → Bool
is_found none = false
is_found (some w) = true

-- `SNIPPET_RE.test(url)`
unfoldable pub is_snippet : Text → Bool
unfolding is_word_char
is_snippet url = is_found (match_after (lit "/snippets/") 10 is_snippet_char url)

abbrev all_black : Text → Bool
all_black [] = true
all_black (c ∷ s) = not (is_white c) && all_black s

-- `(\?[^\s]*)?$`
abbrev is_query : Text → Bool
is_query [] = true
is_query (c ∷ s) = c == b'?' && all_black s

-- `\.(jpe?g|png|gif|webp)(\?[^\s]*)?$` at the start of a text of small letters.
abbrev image_here : Text → Bool
image_here s =
    (starts_with s (lit ".jpg") && is_query (drop 4 s))
    || ((starts_with s (lit ".jpeg") && is_query (drop 5 s))
        || ((starts_with s (lit ".png") && is_query (drop 4 s))
            || ((starts_with s (lit ".gif") && is_query (drop 4 s))
                || (starts_with s (lit ".webp") && is_query (drop 5 s)))))

abbrev has_image : Text → Bool
has_image [] = false
has_image (c ∷ s) = image_here (c ∷ s) || has_image s

-- `IMAGE_RE.test(url)`; the flag `i` is on ASCII letters.
unfoldable pub is_image : Text → Bool
is_image url = has_image (lower url)

-- `u.origin + u.pathname` and the parameter `lang` of a URL.
pub record Address : Type 0 where
  pub base : Text
  pub lang : Text

-- What is pushed to `parts`; of the elements' props, those that depend on the text.
pub data Part : Type 0 where
  span : Text → Part
  anchor : Text → Part
  image : Text → Part
  snippet_block : Address → Part
  mark : Bool → Text → Part

abbrev pub address_or : Text → Option Address → Address
address_or url none = record { base = url; lang = [] }
address_or url (some a) = a

module _ (new_url : Text → Option Address) (my_nick : Text) where
  -- The element of a piece; `none` of `new_url` is its exception.
  unfoldable pub part : Piece → Part
  unfolding is_snippet is_image
  part (plain s) = span s
  part (link url) =
      if is_snippet url
      then snippet_block (address_or url (new_url url))
      else if is_image url
      then image url
      else anchor url
  part (mention s) = mark (text_eq (drop 1 s) my_nick) s

  -- No part at all stands for the empty text.
  unfoldable pub render_text : Text → List Part
  unfolding pieces part strip_codes
  render_text text = map part (pieces (strip_codes text))
