-- ===== src/Legacy/Parser.antt =====
-- `parseIRCMessage` and `nickFromPrefix` of KoreChat.jsx. A position in the line is the rest of the
-- text from there.
use korechat.Common.{
  ℕ, zero, suc, ◌∷◌, [], Text, is_empty, Dict, put, List, length, map, Option, none, some, ◌==◌,
  get_or_else, get_elem?, if◌then◌else◌,
}
use korechat.Irc.{break_at, split_on, replace_pair, upper_char}

pub record Msg : Type 0 where
  pub tags : Dict Text
  -- `null` without one
  pub prefix : Option Text
  pub command : Text
  pub params : List Text

-- The chain of `replace` calls on a tag's value.
unfoldable pub unescape : Text → Text
unescape v = replace_pair b'\\' b'\\' (replace_pair b's' b' ' (replace_pair b':' b';' v))

-- The callback of `forEach` on the tags: `[k, v]` are the first two parts around "=".
unfoldable pub add_tag : Text → Dict Text → Dict Text
unfolding unescape
add_tag t tags =
    let parts = split_on b'=' t in
    let k = get_or_else (get_elem? parts 0) [] in
    if is_empty k then tags else put k (unescape (get_or_else (get_elem? parts 1) [])) tags

unfoldable pub add_tags : Dict Text → List Text → Dict Text
add_tags tags [] = tags
add_tags tags (t ∷ ts) = add_tags (add_tag t tags) ts

-- The `while` loop over the parameters, on fuel.
unfoldable pub params_loop : ℕ → Text → List Text
params_loop zero s = []
params_loop (suc fuel) [] = []
params_loop (suc fuel) (c ∷ s) =
    if c == b':'
    then s ∷ []
    else elim (break_at b' ' (c ∷ s)) [ none ↦ (c ∷ s) ∷ [] | some (w, r) ↦ w ∷ params_loop fuel r ]

unfoldable pub parse_command : Dict Text → Option Text → Text → Msg
parse_command tags prefix s = elim (break_at b' ' s) [
  | none ↦ record { tags = tags; prefix = prefix; command = map upper_char s; params = [] }
  | some (c, r) ↦ record {
    tags = tags;
    prefix = prefix;
    command = map upper_char c;
    params = params_loop (length r) r;
  }
]

unfoldable pub parse_prefix : Dict Text → Text → Msg
parse_prefix tags [] = parse_command tags none []
parse_prefix tags (c ∷ s) =
    if c == b':'
    then elim (break_at b' ' s) [
      | none ↦ record { tags = tags; prefix = some s; command = []; params = [] }
      | some (p, r) ↦ parse_command tags (some p) r
    ]
    else parse_command tags none (c ∷ s)

unfoldable pub parse_irc_message : Text → Msg
parse_irc_message [] = parse_prefix [] []
parse_irc_message (c ∷ s) =
    if c == b'@'
    then elim (break_at b' ' s) [
      | none ↦ record { tags = []; prefix = none; command = []; params = [] }
      | some (t, r) ↦ parse_prefix (add_tags [] (split_on b';' t)) r
    ]
    else parse_prefix [] (c ∷ s)

unfoldable pub nick_from_prefix : Option Text → Text
nick_from_prefix none = []
nick_from_prefix (some p) = elim (break_at b'!' p) [ none ↦ p | some (nick, r) ↦ nick ]
