-- ===== src/Chat/Roster.antt =====
-- Who is in which channel, as a function of a key and a nick: what the actions of `reducer`
-- (frontend/app.jsx) are to it.
pub mod Steps
pub mod Sessions
use korechat.Common.{
  ◌∷◌, [], ◌≡◌, refl, Text, text_eq, text_eq_iff, starts_with, Dict, lookup, lookup-put,
  lookup-remove, lookup-reject_keys, put, merge, has_key, has_key-lookup, lookup-no_key, remove,
  ◌∙◌, ap, List, Bool-cases, true, false, Option, none, some, get_or_else, if◌then◌else◌, arith,
  Option-cases, inl, inr,
}
use korechat.Chat.{
  State, Action, Channel, Message, Clock, chan_key, net_prefix, net_add, net_update, net_remove,
  net_del, net_status, net_reorder, set_nick, set_active_net, set_active_chan, chan_join, chan_part,
  chan_rejoin, chan_part_remove, set_topic, set_members, replace_members, set_member_prefix,
  del_member, add_msg, prepend_msgs, replay_start, replay_done, sort_msgs, clear_unread,
  set_presence,
}
use korechat.Chat.Networks
use korechat.Chat.Channels
use korechat.Chat.Messages
use korechat.Chat.Reducer.{reducer, run}

-- The prefix of a member, in what is stored at a key.
abbrev pub prefix_in : Text → Option Channel → Option Text
prefix_in nick none = none
prefix_in nick (some ch) = lookup nick ch.members

-- The prefix of a nick in the channel at a key, `none` if it is not a member.
abbrev pub roster : State → Text → Text → Option Text
roster s k nick = prefix_in nick (lookup k s.channels)

-- A nick's prefix after entries are written over it.
abbrev pub written : Text → Dict Text → Option Text → Option Text
written nick [] old = old
written nick ((n, p) ∷ more) old = written nick more (if text_eq n nick then some p else old)

-- A new prefix for a member, nothing for who is none.
abbrev pub replaced : Text → Option Text → Option Text
replaced p none = none
replaced p (some q) = some p

-- One entry of the roster after an action, from the entry before it.
abbrev pub follow : Action → Text → Text → Option Text → Option Text
follow (net_remove id) k nick old = if starts_with k (net_prefix id) then none else old
follow (net_del id) k nick old = if starts_with k (net_prefix id) then none else old
follow (chan_part net_id chan) k nick old = if text_eq (chan_key net_id chan) k then none else old
follow (chan_rejoin net_id chan) k nick old = if text_eq (chan_key net_id chan) k then none else old
follow (chan_part_remove net_id chan) k nick old =
    if text_eq (chan_key net_id chan) k then none else old
follow (set_members net_id chan members) k nick old =
    if text_eq (chan_key net_id chan) k then written nick members old else old
follow (replace_members net_id chan members) k nick old =
    if text_eq (chan_key net_id chan) k then lookup nick members else old
follow (set_member_prefix net_id chan n p) k nick old =
    if text_eq (chan_key net_id chan) k then if text_eq n nick then replaced p old else old else old
follow (del_member net_id chan n) k nick old =
    if text_eq (chan_key net_id chan) k then if text_eq n nick then none else old else old
follow _ k nick old = old

abbrev pub follow_all : List Action → Text → Text → Option Text → Option Text
follow_all [] k nick old = old
follow_all (a ∷ as') k nick old = follow_all as' k nick (follow a k nick old)

pub lookup-merge :
    (nick : Text) (o more : Dict Text)
    → lookup nick (merge o more) ≡ written nick more (lookup nick o)
unfolding merge
lookup-merge nick o [] = refl
lookup-merge nick o ((n, p) ∷ more) = rw (lookup-merge nick (put n p o) more, lookup-put n nick p o)

pub prefix_in-put :
    (k' k nick : Text) (ch : Channel) (o : Dict Channel)
    → prefix_in nick (lookup k (put k' ch o))
      ≡ (if text_eq k' k then lookup nick ch.members else prefix_in nick (lookup k o))
prefix_in-put k' k nick ch o = rw (lookup-put k' k ch o) (ground arith)

pub prefix_in-remove :
    (k' k nick : Text) (o : Dict Channel)
    → prefix_in nick (lookup k (remove k' o))
      ≡ (if text_eq k' k then none else prefix_in nick (lookup k o))
prefix_in-remove k' k nick o = rw (lookup-remove k' k o) (ground arith)

pub prefix_in-drop_network :
    (id k nick : Text) (o : Dict Channel)
    → prefix_in nick (lookup k (Networks.drop_network id o))
      ≡ (if starts_with k (net_prefix id) then none else prefix_in nick (lookup k o))
unfolding Networks.drop_network
prefix_in-drop_network id k nick o =
    rw (lookup-reject_keys (λ x. starts_with x (net_prefix id)) k o) (ground arith)

-- The members of the channel that a case starts from.
pub channel_at-members :
    (k nick : Text) (s : State) → lookup nick (Channels.channel_at k s).members ≡ roster s k nick
channel_at-members k nick s = by_channel (lookup k s.channels)
  where
    by_channel :
        (o : Option Channel)
        → lookup nick (get_or_else o (record { topic = []; members = []; left = false })).members
          ≡ prefix_in nick o
    by_channel none = unfold lookup in refl
    by_channel (some ch) = refl

-- The same entry at the same key.
pub if_same :
    (k' k nick : Text) (s : State) (x : Option Text)
    → (if text_eq k' k then roster s k' nick else roster s k nick) ≡ roster s k nick
if_same k' k nick s x = ground (arith, text_eq_iff k' k)
