-- ===== src/Line/Modes.antt =====
-- MODE in `handleLine` (frontend/app.jsx).
use korechat.Common.{
  ℕ, suc, ◌++◌, ◌∷◌, [], Text, lit, starts_with, set_has, List, Bool, true, false, ◌||◌, ◌==◌,
  Option, none, some, if◌then◌else◌, drop, join,
}
use korechat.Chat.{set_member_prefix}
use korechat.Client.{Refs, Out, dispatch, send, arg}
use korechat.Line.{Ctx, sys, membership, in_history}

-- `modeToPrefix[ch]`
unfoldable pub mode_to_prefix : ℕ → Option Text
mode_to_prefix ch =
    if ch == b'o'
    then some (b'@' ∷ [])
    else if ch == b'h'
    then some (b'%' ∷ [])
    else if ch == b'v'
    then some (b'+' ∷ [])
    else if ch == b'a'
    then some (b'&' ∷ [])
    else if ch == b'q'
    then some (b'~' ∷ [])
    else none

-- `"beIklLjf".includes(ch)`
unfoldable pub takes_argument : ℕ → Bool
takes_argument ch =
    ch == b'b'
    || (ch == b'e'
        || (ch == b'I'
            || (ch == b'k' || (ch == b'l' || (ch == b'L' || (ch == b'j' || ch == b'f'))))))

-- A change of one member's prefix: `none` is a missing or empty nick.
abbrev pub change : Text → Bool → Text → Text → List (Text × Text)
change nick adds prefix [] = []
change nick adds prefix (d ∷ s) = (nick, if adds then prefix else []) ∷ []

-- The loop over the mode characters: the prefixes to set, in order. `adds` is `dir === "+"`.
unfoldable pub mode_changes : List Text → Text → ℕ → Bool → List (Text × Text)
mode_changes params [] i adds = []
mode_changes params (ch ∷ chs) i adds = elim (ch == b'+' || ch == b'-') [
  | true ↦ mode_changes params chs i (ch == b'+')
  | false ↦ elim (mode_to_prefix ch) [
    | some prefix ↦
        change (arg params i) adds prefix (arg params i) ++ mode_changes params chs (suc i) adds
    | none ↦ mode_changes params chs (if takes_argument ch then suc i else i) adds
  ]
]

abbrev prefix_outs : Text → Text → List (Text × Text) → List Out
prefix_outs net_id target [] = []
prefix_outs net_id target ((nick, prefix) ∷ ps) =
    dispatch (set_member_prefix net_id target nick prefix) ∷ prefix_outs net_id target ps

-- The request for fresh names, if a member's mode changed.
abbrev refresh : Bool → Text → Text → List (Text × Text) → List Out
refresh ready net_id target [] = []
refresh ready net_id target (p ∷ ps) =
    if ready then send net_id (lit "NAMES " ++ target) ∷ [] else []

unfoldable pub mode : Ctx → Refs → List Out
unfolding mode_changes
mode c refs =
    let target = arg c.msg.params 0 in
    let changes = mode_changes c.msg.params (arg c.msg.params 1) 2 true in
    if in_history c refs
    then []
    else if starts_with target (lit "#")
    then sys c target (c.from ++ (lit " sets mode " ++ join (lit " ") (drop 1 c.msg.params)))
        membership
      ∷ (prefix_outs c.net_id target changes
          ++ refresh (set_has c.net_id refs.ready) c.net_id target changes)
    else []
