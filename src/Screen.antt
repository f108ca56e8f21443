-- ===== src/Screen.antt =====
-- What frontend/app.jsx shows of the state: the messages and the members of the selected channel, the
-- summaries of membership changes and the colour of a nick.
pub mod Codes
pub mod Pieces
pub mod Linked
pub mod Matches
pub mod Runs
pub mod Rendered
pub mod Addresses
pub mod Avatars
pub mod Rows
pub mod Grouped
pub mod Scroll
pub mod Tests
use korechat.Common.{
  ℕ, ◌+◌, ◌*◌, ◌%◌, ◌^◌, ◌++◌, ◌∷◌, [], Text, lit, text_eq, starts_with, is_empty, includes, join,
  show_nat, Dict, lookup, set_has, set_add, set_delete, keep, List, length, ltb, get_elem?, Bool,
  true, false, not, ◌&&◌, ◌||◌, ◌==◌, Option, none, some, get_or_else, if◌then◌else◌,
}
use korechat.Chat.{Message, Kind, message, system, status_chan}

-- The listener of "irc-ignore".
unfoldable pub ignored : Text → Bool → List Text → List Text
ignored nick add prev = if add then set_add nick prev else set_delete nick prev

abbrev is_message : Kind → Bool
is_message message = true
is_message system = false

-- A user's message that strayed into the status window; a server's nick has a dot.
abbrev is_stray : Text → Message → Bool
is_stray chan m =
    let nick = get_or_else m.nick [] in
    text_eq chan status_chan
    && (is_message m.kind && (not (is_empty nick) && not (includes nick (lit "."))))

-- The callback of the filter of `activeMsgs`.
unfoldable pub is_visible : Text → List Text → Message → Bool
is_visible chan ignored_nicks m =
    let nick = get_or_else m.nick [] in
    if not (is_empty nick) && set_has nick ignored_nicks then false else not (is_stray chan m)

-- `activeMsgs`
unfoldable pub active_messages : Text → List Text → List Message → List Message
active_messages chan ignored_nicks ms = keep (is_visible chan ignored_nicks) ms

-- The members with one prefix.
unfoldable pub with_prefix : Text → Dict Text → Dict Text
with_prefix prefix members = keep (λ (e : Text × Text). text_eq e.1 prefix) members

-- `owners`, `admins`, `ops`, `halfop`, `voiced`, `normal`
unfoldable pub groups : Dict Text → List (Dict Text)
unfolding with_prefix
groups members =
    with_prefix (lit "~") members
    ∷ with_prefix (lit "&") members
    ∷ with_prefix (lit "@") members
    ∷ with_prefix (lit "%") members
    ∷ with_prefix (lit "+") members
    ∷ with_prefix [] members
    ∷ []

-- `amIop`
unfoldable pub am_i_op : Text → Dict Text → Bool
am_i_op nick members =
    let prefix = if is_empty nick then [] else get_or_else (lookup nick members) [] in
    text_eq prefix (lit "~") || (text_eq prefix (lit "&") || text_eq prefix (lit "@"))

pub record Counts : Type 0 where
  pub joined : ℕ
  pub left : ℕ
  pub kicked : ℕ
  pub modes : ℕ

-- One message of the loop over the membership messages.
unfoldable pub count : Text → Counts → Counts
count t c =
    if includes t (lit "kicked")
    then record c { kicked = c.kicked + 1 }
    else if starts_with t (lit "→") || includes t (lit "joined")
    then record c { joined = c.joined + 1 }
    else if starts_with t (lit "←")
        || (starts_with t (lit "✕") || (includes t (lit "left") || includes t (lit "quit")))
    then record c { left = c.left + 1 }
    else if includes t (lit "mode")
    then record c { modes = c.modes + 1 }
    else c

unfoldable pub count_all : List Message → Counts → Counts
count_all [] c = c
count_all (m ∷ ms) c = count_all ms (count m.text c)

abbrev part : ℕ → Text → List Text
part n what = if n == 0 then [] else (show_nat n ++ what) ∷ []

abbrev or_events : List Text → ℕ → List Text
or_events [] n = (show_nat n ++ lit " events") ∷ []
or_events (p ∷ ps) n = p ∷ ps

-- `label` of a group of membership messages
unfoldable pub summary : List Message → Text
unfolding count_all count
summary ms =
    let c = count_all ms (record { joined = 0; left = 0; kicked = 0; modes = 0 }) in
    let parts =
      part c.joined (lit " joined")
      ++ (part c.left (lit " left")
          ++ (part c.kicked (lit " kicked")
              ++ part c.modes (if ltb 1 c.modes then lit " modes set" else lit " mode set"))) in
    join (lit ", ") (or_events parts (length ms))

unfoldable pub palette : List Text
palette =
    lit "#7eb8f7"
    ∷ lit "#f7a07e"
    ∷ lit "#a0f77e"
    ∷ lit "#f7d07e"
    ∷ lit "#d07ef7"
    ∷ lit "#7ef7d0"
    ∷ lit "#f77ea0"
    ∷ lit "#7ea0f7"
    ∷ lit "#f7f77e"
    ∷ lit "#f77ef7"
    ∷ []

-- The loop of `nickColor`: `& 0x7fffffff` keeps 31 bits.
unfoldable pub nick_hash : ℕ → Text → ℕ
nick_hash h [] = h
nick_hash h (c ∷ nick) = nick_hash ((h * 31 + c) % 2 ^ 31) nick

unfoldable pub nick_color : Text → Option Text
unfolding nick_hash palette
nick_color nick = get_elem? palette (nick_hash 0 nick % length palette)
