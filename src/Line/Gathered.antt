-- ===== src/Line/Gathered.antt =====
-- The replies to NAMES and their end (frontend/app.jsx, `handleLine`, 353 and 366).
use korechat.Common.{
  ◌++◌, ◌∷◌, [], ◌≡◌, refl, Text, text_eq_refl, is_empty, trim, Dict, lookup, lookup-put,
  lookup-remove, List, All, false, none, get_or_else,
}
use korechat.Chat.{chan_key, replace_members}
use korechat.Irc.{split_on}
use korechat.Client.{Refs, dispatch, arg}
use korechat.Line.{Ctx}
use korechat.Line.Names.{add_names, names_reply, end_of_names}

-- The lines of a reply, one after the other.
abbrev pub gather : List Ctx → Refs → Refs
gather [] refs = refs
gather (c ∷ cs) refs = gather cs (names_reply c refs)

-- The entries of all lines.
abbrev pub entries : List Ctx → List Text
entries [] = []
entries (c ∷ cs) = split_on b' ' (trim (arg c.msg.params 3)) ++ entries cs

-- A line of a reply for a channel.
abbrev pub IsReply : Text → Text → Ctx → Type 0
IsReply net_id chan c = (c.net_id ≡ net_id) × (arg c.msg.params 2 ≡ chan)

-- What was gathered for a key.
abbrev pub names_at : Text → Refs → Dict Text
names_at key refs = get_or_else (lookup key refs.names_buf) []

add_names-append :
    (xs ys : List Text) (names : Dict Text)
    → add_names (xs ++ ys) names ≡ add_names ys (add_names xs names)
unfolding add_names
add_names-append [] ys names = refl
add_names-append (x ∷ xs) ys names = add_names-append xs ys _

module _ (net_id chan : Text) (named : is_empty chan ≡ false) where
  names_at-names_reply :
      (c : Ctx) (refs : Refs)
      → IsReply net_id chan c
      → names_at (chan_key net_id chan) (names_reply c refs)
        ≡ add_names
            (split_on b' ' (trim (arg c.msg.params 3)))
            (names_at (chan_key net_id chan) refs)
  unfolding names_reply
  names_at-names_reply c refs h =
      rw (h.0, h.1, named, lookup-put, text_eq_refl (chan_key net_id chan))

  names_at-gather :
      (cs : List Ctx) (refs : Refs)
      → All (IsReply net_id chan) cs
      → names_at (chan_key net_id chan) (gather cs refs)
        ≡ add_names (entries cs) (names_at (chan_key net_id chan) refs)
  names_at-gather [] refs h = unfold add_names in refl
  names_at-gather (c ∷ cs) refs h = rw (
    names_at-gather cs (names_reply c refs) h.1,
    names_at-names_reply c refs h.0,
    add_names-append (split_on b' ' (trim (arg c.msg.params 3))) (entries cs),
  )

-- After any number of lines of a reply for a channel, the end of the reply replaces the members by
-- the entries of all those lines in their order, on top of what was gathered before, and nothing is
-- left gathered for the channel. The channel's name is not empty.
pub end_of_names-gather :
    (net_id chan : Text) (cs : List Ctx) (c : Ctx) (refs : Refs)
    → is_empty chan ≡ false
    → All (IsReply net_id chan) cs
    → c.net_id ≡ net_id
    → arg c.msg.params 1 ≡ chan
    → ((end_of_names c (gather cs refs)).1
        ≡ dispatch (
            replace_members net_id chan
              (add_names (entries cs) (names_at (chan_key net_id chan) refs)))
          ∷ [])
      × (lookup (chan_key net_id chan) (end_of_names c (gather cs refs)).0.names_buf ≡ none)
unfolding end_of_names
end_of_names-gather net_id chan cs c refs named h e f = (
  rw (e, f, named, names_at-gather net_id chan named cs refs h),
  rw (e, f, named, lookup-remove, text_eq_refl (chan_key net_id chan)),
)
