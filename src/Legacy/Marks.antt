-- ===== src/Legacy/Marks.antt =====
-- `renderText` of KoreChat.jsx: links and mentions, marked inside of the text by NUL characters.
use korechat.Common.{
  ℕ, zero, suc, ◌++◌, ◌∷◌, [], Text, lit, text_eq, is_empty, is_white, starts_with, drop, length,
  List, Bool, true, false, not, ◌==◌, Option, none, some, if◌then◌else◌,
}
use korechat.Screen.Pieces.{exec, greedy, mention_here, split_at}

-- `https?:\/\/[^\s]+` at the start of a text.
unfoldable pub url_here : Text → Option (Text × Text)
unfolding split_at is_white
url_here s =
    if starts_with s (lit "http://")
    then greedy (lit "http://") (split_at (λ c. not (is_white c)) (drop 7 s))
    else if starts_with s (lit "https://")
    then greedy (lit "https://") (split_at (λ c. not (is_white c)) (drop 8 s))
    else none

-- `s.replace(re, ...)` for a global expression.
unfoldable pub replace_all : (Text → Option (Text × Text)) → (Text → Text) → ℕ → Text → Text
unfolding exec
replace_all here with_ zero s = s
replace_all here with_ (suc fuel) s = elim (exec here s) [
  | none ↦ s
  | some f ↦ f.before ++ (with_ f.match ++ replace_all here with_ fuel f.after)
]

-- "\x00URL\x00$1\x00END\x00" and its like.
abbrev framed : Text → Text → Text
framed name w = 0 ∷ (name ++ (0 ∷ (w ++ (0 ∷ (lit "END" ++ (0 ∷ []))))))

-- `combined`
unfoldable pub combined : Text → Text
unfolding replace_all url_here mention_here
combined text =
    let urls = replace_all url_here (framed (lit "URL")) (length text) text in
    replace_all mention_here (framed (lit "MENTION")) (length urls) urls

-- `s.split("\x00")`
abbrev cons_token : ℕ → List Text → List Text
cons_token c [] = (c ∷ []) ∷ []
cons_token c (t ∷ ts) = (c ∷ t) ∷ ts

unfoldable pub tokens : Text → List Text
tokens [] = [] ∷ []
tokens (c ∷ s) = let rest = tokens s in if c == 0 then [] ∷ rest else cons_token c rest

-- `mode`
pub data Mode : Type 0 where
  nothing url mention : Mode

pub data Part : Type 0 where
  anchor : Text → Part
  mark : Bool → Text → Part
  span : Text → Part

abbrev push : Text → Mode → Text → List Part → List Part
push my_nick url t ps = anchor t ∷ ps
push my_nick mention t ps = mark (text_eq (drop 1 t) my_nick) t ∷ ps
push my_nick nothing t ps = if is_empty t then ps else span t ∷ ps

-- The loop over the tokens.
unfoldable pub parts_of : Text → Mode → List Text → List Part
parts_of my_nick mode [] = []
parts_of my_nick mode (t ∷ ts) = elim (text_eq t (lit "URL")) [
  | true ↦ parts_of my_nick url ts
  | false ↦ elim (text_eq t (lit "MENTION")) [
    | true ↦ parts_of my_nick mention ts
    | false ↦ elim (text_eq t (lit "END")) [
      | true ↦ parts_of my_nick nothing ts
      | false ↦ push my_nick mode t (parts_of my_nick mode ts)
    ]
  ]
]

-- No parts stand for the text as it is.
unfoldable pub render_text : Text → Text → List Part
unfolding combined tokens parts_of
render_text my_nick text = parts_of my_nick nothing (tokens (combined text))
