-- ===== src/Screen/Rows.antt =====
-- The rows of the message list of frontend/app.jsx: separators between days, groups of membership
-- messages, and `MsgRow`. `day_of` is `new Date(t).toLocaleDateString(...)`.
use korechat.Common.{
  ℕ, zero, suc, ◌+◌, ◌∷◌, [], Text, lit, text_eq, is_empty, includes, length, List, ltb, Bool, true,
  false, not, ◌&&◌, Option, none, some, ◌||◌, if◌then◌else◌,
}
use korechat.Chat.{Message, Kind, message, system, Clock}

-- An element of `msgsWithDays`.
pub data Item : Type 0 where
  daysep : Text → Text → Item
  shown : Message → Item

-- The separator and the message, or the message alone; `last_day` is the label of the last separator.
unfoldable pub with_days : (Text → Text) → Text → List Message → List Item
with_days day_of last_day [] = []
with_days day_of last_day (m ∷ ms) =
    let same = with_days day_of last_day ms in
    let other = with_days day_of (day_of m.time) ms in
    if is_empty m.time || text_eq (day_of m.time) last_day
    then shown m ∷ same
    else daysep (day_of m.time) m.time ∷ shown m ∷ other

pub data Row : Type 0 where
  separator : Text → Text → Row
  group : List Message → Row
  -- with `prev`
  single : Message → Option Item → Row

abbrev is_system : Kind → Bool
is_system message = false
is_system system = true

-- `msg.type==="system"&&msg.subtype==="membership"`
unfoldable pub is_membership : Message → Bool
is_membership m = is_system m.kind && text_eq m.subtype (lit "membership")

-- The inner loop: the membership messages in front, and the rest.
unfoldable pub gather : List Item → List Message × List Item
gather [] = ([], [])
gather (daysep l t ∷ is) = ([], daysep l t ∷ is)
gather (shown m ∷ is) =
    let (g, rest) = gather is in if is_membership m then (m ∷ g, rest) else ([], shown m ∷ is)

abbrev pub last_of : Message → List Message → Message
last_of m [] = m
last_of m (n ∷ ns) = last_of n ns

-- The outer loop, from a place behind `prev`.
unfoldable pub rows_from : ℕ → Option Item → List Item → List Row
unfolding gather is_membership
rows_from zero prev is = []
rows_from (suc fuel) prev [] = []
rows_from (suc fuel) prev (daysep l t ∷ is) = separator l t ∷ rows_from fuel (some (daysep l t)) is
rows_from (suc fuel) prev (shown m ∷ is) = elim (is_membership m) [
  | true ↦
      group (m ∷ (gather is).0)
      ∷ rows_from fuel (some (shown (last_of m (gather is).0))) (gather is).1
  | false ↦ single m prev ∷ rows_from fuel (some (shown m)) is
]

unfoldable pub rows : (Text → Text) → List Message → List Row
unfolding with_days rows_from
rows day_of ms = let is = with_days day_of [] ms in rows_from (length is) none is

abbrev same_text : Option Text → Option Text → Bool
same_text none none = true
same_text (some s) (some t) = text_eq s t
same_text _ _ = false

-- `cont`: the message goes on with the one before it, of the same nick and less than five minutes ago;
-- a time that is missing is `NaN`.
unfoldable pub continues : Clock → Message → Option Item → Bool
unfolding is_membership
continues clock m none = false
continues clock m (some (daysep l t)) = false
continues clock m (some (shown p)) =
    not (is_system p.kind)
    && (same_text p.nick m.nick
        && (not (is_empty m.time)
            && (not (is_empty p.time) && ltb (clock.millis m.time) (clock.millis p.time + 300000))))

-- `mentioned`
unfoldable pub mentioned : Text → Message → Bool
mentioned my_nick m = not (same_text m.nick (some my_nick)) && includes m.text (b'@' ∷ my_nick)
