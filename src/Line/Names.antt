-- ===== src/Line/Names.antt =====
-- 353 and 366 in `handleLine` (frontend/app.jsx): the replies to NAMES are gathered, and replace the
-- member list at the end.
use korechat.Common.{
  ℕ, ◌∷◌, [], Text, is_empty, Dict, lookup, put, remove, List, Bool, ◌||◌, ◌==◌, get_or_else,
  if◌then◌else◌, trim,
}
use korechat.Chat.{replace_members, chan_key}
use korechat.Irc.{split_on}
use korechat.Client.{Refs, Out, dispatch, arg}
use korechat.Line.{Ctx}

-- `"~&@%+".includes(c)`
unfoldable pub is_prefix_char : ℕ → Bool
is_prefix_char c = c == b'~' || (c == b'&' || (c == b'@' || (c == b'%' || c == b'+')))

-- `rest`, when the loop over the prefix characters ends
unfoldable pub strip_prefix : Text → Text
strip_prefix [] = []
strip_prefix (c ∷ s) = let rest = strip_prefix s in if is_prefix_char c then rest else c ∷ s

-- `pfxChars[0] || ""`
unfoldable pub first_prefix : Text → Text
first_prefix [] = []
first_prefix (c ∷ s) = if is_prefix_char c then c ∷ [] else []

unfoldable pub add_name : Text → Dict Text → Dict Text
add_name e names =
    if is_empty e
    then names
    else if is_empty (strip_prefix e)
    then names
    else put (strip_prefix e) (first_prefix e) names

unfoldable pub add_names : List Text → Dict Text → Dict Text
add_names [] names = names
add_names (e ∷ es) names = add_names es (add_name e names)

unfoldable pub names_reply : Ctx → Refs → Refs
names_reply c refs =
    let chan = arg c.msg.params 2 in
    let key = chan_key c.net_id chan in
    if is_empty chan then refs else record refs {
      names_buf =
          put key
            (add_names (split_on b' ' (trim (arg c.msg.params 3)))
              (get_or_else (lookup key refs.names_buf) []))
            refs.names_buf;
    }

unfoldable pub end_of_names : Ctx → Refs → Refs × List Out
end_of_names c refs =
    let chan = arg c.msg.params 1 in
    let key = chan_key c.net_id chan in
    if is_empty chan then (refs, []) else (
      record refs { names_buf = remove key refs.names_buf },
      dispatch (replace_members c.net_id chan (get_or_else (lookup key refs.names_buf) [])) ∷ [],
    )
