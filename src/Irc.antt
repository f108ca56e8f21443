-- ===== src/Irc.antt =====
-- `parseIRC` and `nickOf` of frontend/app.jsx: the text of one IRC line and its parts. A position in
-- the line is the rest of the text from there.
pub mod Words
pub mod Tags
pub mod Format
pub mod TagList
pub mod RoundTrip
pub mod Tests
use korechat.Common.{
  ℕ, zero, suc, ◌++◌, ◌-◌, ◌∷◌, [], Text, lit, is_empty, Dict, put, List, length, map, Bool, true,
  false, ◌&&◌, Option, none, some, ◌==◌, leb, if◌then◌else◌,
}

pub record Msg : Type 0 where
  pub tags : Dict Text
  pub prefix : Text
  pub command : Text
  pub params : List Text

abbrev pub longer : ℕ → Option (Text × Text) → Option (Text × Text)
longer c none = none
longer c (some (w, r)) = some (c ∷ w, r)

-- `indexOf(d, pos)` with the two slices around it
unfoldable pub break_at : ℕ → Text → Option (Text × Text)
break_at d [] = none
break_at d (c ∷ s) = let rest = break_at d s in if c == d then some ([], s) else longer c rest

abbrev pub push_head : ℕ → List Text → List Text
push_head c [] = (c ∷ []) ∷ []
push_head c (w ∷ ws) = (c ∷ w) ∷ ws

-- `s.split(d)` for one character
unfoldable pub split_on : ℕ → Text → List Text
split_on d [] = [] ∷ []
split_on d (c ∷ s) = let rest = split_on d s in if c == d then [] ∷ rest else push_head c rest

-- `s.replace(/\\x/g, y)`: each backslash followed by `x`, from the left
unfoldable pub replace_pair : ℕ → ℕ → Text → Text
replace_pair x y [] = []
replace_pair x y (c ∷ []) = c ∷ []
replace_pair x y (c ∷ d ∷ s) = elim (c == b'\\' && d == x) [
  | true ↦ y ∷ replace_pair x y s
  | false ↦ c ∷ replace_pair x y (d ∷ s)
]

-- The chain of `replace` calls on a tag's value.
unfoldable pub unescape : Text → Text
unescape v = replace_pair b'\\' b'\\' (
    replace_pair b'n' 10 (replace_pair b'r' 13 (replace_pair b's' b' ' (replace_pair b':' b';' v))))

-- The callback of `forEach` on the tags.
unfoldable pub add_tag : Text → Dict Text → Dict Text
add_tag t tags = elim (break_at b'=' t) [
  | none ↦ if is_empty t then tags else put t [] tags
  | some (k, v) ↦ if is_empty k then tags else put k (unescape v) tags
]

unfoldable pub add_tags : Dict Text → List Text → Dict Text
add_tags tags [] = tags
add_tags tags (t ∷ ts) = add_tags (add_tag t tags) ts

-- `toUpperCase` on ASCII letters; other characters are left as they are.
unfoldable pub upper_char : ℕ → ℕ
upper_char c = if leb b'a' c && leb c b'z' then c - 32 else c

abbrev pub upper : Text → Text
upper s = map upper_char s

-- The `while` loop over the parameters, on fuel.
unfoldable pub params_loop : ℕ → Text → List Text
params_loop zero s = []
params_loop (suc fuel) [] = []
params_loop (suc fuel) (c ∷ s) =
    if c == b':'
    then s ∷ []
    else elim (break_at b' ' (c ∷ s)) [ none ↦ (c ∷ s) ∷ [] | some (w, r) ↦ w ∷ params_loop fuel r ]

unfoldable pub parse_params : Text → List Text
parse_params s = params_loop (length s) s

unfoldable pub parse_command : Dict Text → Text → Text → Msg
parse_command tags prefix s = elim (break_at b' ' s) [
  | none ↦ record { tags = tags; prefix = prefix; command = upper s; params = [] }
  | some (c, r) ↦ record {
    tags = tags;
    prefix = prefix;
    command = upper c;
    params = parse_params r;
  }
]

unfoldable pub parse_prefix : Dict Text → Text → Msg
parse_prefix tags [] = parse_command tags [] []
parse_prefix tags (c ∷ s) =
    if c == b':'
    then elim (break_at b' ' s) [
      | none ↦ record { tags = tags; prefix = s; command = []; params = [] }
      | some (p, r) ↦ parse_command tags p r
    ]
    else parse_command tags [] (c ∷ s)

unfoldable pub parse_irc : Text → Msg
parse_irc [] = parse_prefix [] []
parse_irc (c ∷ s) =
    if c == b'@'
    then elim (break_at b' ' s) [
      | none ↦ record { tags = []; prefix = []; command = []; params = [] }
      | some (t, r) ↦ parse_prefix (add_tags [] (split_on b';' t)) r
    ]
    else parse_prefix [] (c ∷ s)

unfoldable pub nick_of : Text → Text
nick_of prefix = elim (break_at b'!' prefix) [ none ↦ prefix | some (nick, r) ↦ nick ]
