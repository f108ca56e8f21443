-- ===== src/Legacy/Cases.antt =====
-- The cases of `reducer` of KoreChat.jsx on channels, messages and the list of networks.
use korechat.Common.{
  ◌+◌, ◌++◌, ◌∷◌, [], Text, text_eq, starts_with, is_empty, Dict, lookup, has_key, put, remove,
  merge, keys, keep, set_add, last_n, List, Bool, false, not, ◌&&◌, Option, none, some, get_or_else,
  if◌then◌else◌,
}
use korechat.Chat.{net_prefix, chan_key}
use korechat.Chat.Keys.{chan_of_key}
use korechat.Legacy.{State, Channel, Message, Network, messages_at, active_channel_of}

-- `{members: {}, topic: "", ...(state.channels[k] || {})}`
abbrev pub no_channel : Channel
no_channel = record { members = []; topic = [] }

abbrev pub channel_at : Text → State → Channel
channel_at k s = get_or_else (lookup k s.channels) no_channel

-- `[...new Set(xs)]`, from the distinct ones that are there already
unfoldable pub add_distinct : List Text → List Text → List Text
add_distinct seen [] = seen
add_distinct seen (x ∷ xs) = add_distinct (set_add x seen) xs

-- Whether there is a name and it is not empty.
abbrev truthy : Option Text → Bool
truthy none = false
truthy (some t) = not (is_empty t)

abbrev is_some_text : Option Text → Text → Bool
is_some_text none t = false
is_some_text (some s) t = text_eq s t

unfoldable pub join_channel : Text → Text → State → State
join_channel net_id chan s =
    let k = chan_key net_id chan in
    record s {
      channels = put k (channel_at k s) s.channels;
      messages = put k (messages_at k s) s.messages;
      unread = put k (get_or_else (lookup k s.unread) 0) s.unread;
      active_channel =
          if truthy (active_channel_of net_id s)
          then s.active_channel
          else put net_id (some chan) s.active_channel;
    }

-- `netChans.length > 0 ? netChans[0].split("::")[1] : null`
abbrev first_channel : List Text → Option Text
first_channel [] = none
first_channel (k ∷ ks) = some (chan_of_key k)

unfoldable pub part_channel : Text → Text → State → State
part_channel net_id chan s =
    let channels = remove (chan_key net_id chan) s.channels in
    let net_chans = keep (λ k. starts_with k (net_prefix net_id)) (keys channels) in
    record s {
      channels = channels;
      active_channel = put net_id (first_channel net_chans) s.active_channel;
    }

unfoldable pub set_topic : Text → Text → Text → State → State
set_topic net_id chan topic s =
    let k = chan_key net_id chan in
    record s { channels = put k (record (channel_at k s) { topic = topic }) s.channels }

unfoldable pub set_members : Text → Text → Dict Text → State → State
set_members net_id chan members s =
    let k = chan_key net_id chan in
    record s {
      channels =
          put k (record (channel_at k s) { members = merge (channel_at k s).members members })
            s.channels;
    }

unfoldable pub remove_member : Text → Text → Text → State → State
remove_member net_id chan nick s =
    let k = chan_key net_id chan in
    elim (lookup k s.channels) [
      | none ↦ s
      | some ch ↦ record s {
        channels = put k (record ch { members = remove nick ch.members }) s.channels;
      }
    ]

unfoldable pub add_message : Text → Text → Message → State → State
add_message net_id chan msg s =
    let k = chan_key net_id chan in
    let is_active =
      is_some_text s.active_network net_id && is_some_text (active_channel_of net_id s) chan in
    record s {
      messages = put k (last_n 500 (messages_at k s ++ msg ∷ [])) s.messages;
      unread = put k (if is_active then 0 else get_or_else (lookup k s.unread) 0 + 1) s.unread;
    }

unfoldable pub clear_unread : Text → Text → State → State
clear_unread net_id chan s = record s { unread = put (chan_key net_id chan) 0 s.unread }

-- The two objects that the loop of REPLAY_FLUSH fills.
unfoldable pub flush_messages :
    Text → Dict (List Message) → Dict (List Message) → Dict (List Message)
flush_messages net_id [] messages = messages
flush_messages net_id ((chan, msgs) ∷ more) messages =
    flush_messages net_id more (put (chan_key net_id chan) (last_n 500 msgs) messages)

unfoldable pub flush_channels : Text → Dict (List Message) → Dict Channel → Dict Channel
flush_channels net_id [] channels = channels
flush_channels net_id ((chan, msgs) ∷ more) channels =
    let k = chan_key net_id chan in
    flush_channels net_id more (if has_key k channels then channels else put k no_channel channels)

unfoldable pub replay_flush : Text → Dict (List Message) → State → State
unfolding flush_messages flush_channels
replay_flush net_id channel_data s = record s {
  messages = flush_messages net_id channel_data s.messages;
  channels = flush_channels net_id channel_data s.channels;
  replaying = put net_id false s.replaying;
}

-- `networks.filter(n => n.id !== id)`
unfoldable pub without_network : Text → List Network → List Network
without_network id [] = []
without_network id (n ∷ ns) =
    let rest = without_network id ns in if text_eq n.id id then rest else n ∷ rest
