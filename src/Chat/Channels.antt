-- ===== src/Chat/Channels.antt =====
-- The cases of `reducer` on channels and their members (frontend/app.jsx).
use korechat.Common.{
  [], Text, text_eq, starts_with, is_empty, Dict, lookup, has_key, put, remove, merge, keys, keep,
  last, Bool, true, false, not, ◌&&◌, Option, none, some, get_or_else, if◌then◌else◌,
}
use korechat.Chat.{State, Channel, net_prefix, chan_key, status_chan, active_chan_of}
use korechat.Chat.Keys.{chan_of_key}

-- `{topic: "", members: {}}`
abbrev no_channel : Channel
no_channel = record { topic = []; members = []; left = false }

abbrev pub channel_at : Text → State → Channel
channel_at k s = get_or_else (lookup k s.channels) no_channel

-- `o[k] || d` put back at `k`, where a list or a number is never falsy but 0
put_default {ℓ} : {V : Type ℓ} → Text → V → Dict V → Dict V
put_default k d o = put k (get_or_else (lookup k o) d) o

-- `x || y` for a channel name that may be missing
abbrev truthy : Option Text → Bool
truthy none = false
truthy (some t) = not (is_empty t)

unfoldable pub chan_join : Text → Text → State → State
unfolding put_default
chan_join net_id chan s =
    let k = chan_key net_id chan in
    record s {
      channels = put k (record (channel_at k s) { left = false }) s.channels;
      messages = put_default k [] s.messages;
      unread = put_default k 0 s.unread;
      active_chan =
          if truthy (active_chan_of net_id s)
          then s.active_chan
          else put net_id (some chan) s.active_chan;
      active_net = if truthy s.active_net then s.active_net else some net_id;
    }

unfoldable pub chan_part : Text → Text → State → State
chan_part net_id chan s =
    let k = chan_key net_id chan in
    let rem =
      keep (λ x. starts_with x (net_prefix net_id) && not (text_eq x k)) (keys s.channels) in
    record s {
      channels = put k (record (channel_at k s) { left = true; members = [] }) s.channels;
      unread = put k 0 s.unread;
      active_chan =
          put net_id (some (elim (last rem) [ none ↦ status_chan | some x ↦ chan_of_key x ]))
            s.active_chan;
    }

unfoldable pub chan_rejoin : Text → Text → State → State
chan_rejoin net_id chan s =
    let k = chan_key net_id chan in
    elim (lookup k s.channels) [
      | none ↦ s
      | some ch ↦ record s {
        channels = put k (record ch { left = false; members = [] }) s.channels;
      }
    ]

unfoldable pub chan_part_remove : Text → Text → State → State
chan_part_remove net_id chan s =
    let k = chan_key net_id chan in
    let channels = remove k s.channels in
    let rem = keep (λ x. starts_with x (net_prefix net_id)) (keys channels) in
    record s {
      channels = channels;
      messages = remove k s.messages;
      unread = remove k s.unread;
      active_chan =
          put net_id (elim (last rem) [ none ↦ none | some x ↦ some (chan_of_key x) ])
            s.active_chan;
    }

unfoldable pub set_topic : Text → Text → Text → State → State
set_topic net_id chan topic s =
    let k = chan_key net_id chan in
    elim (lookup k s.channels) [
      | none ↦ s
      | some ch ↦ record s { channels = put k (record ch { topic = topic }) s.channels }
    ]

unfoldable pub set_members : Text → Text → Dict Text → State → State
set_members net_id chan members s =
    let k = chan_key net_id chan in
    let ch = channel_at k s in
    record s { channels = put k (record ch { members = merge ch.members members }) s.channels }

unfoldable pub replace_members : Text → Text → Dict Text → State → State
replace_members net_id chan members s =
    let k = chan_key net_id chan in
    record s { channels = put k (record (channel_at k s) { members = members }) s.channels }

unfoldable pub set_member_prefix : Text → Text → Text → Text → State → State
set_member_prefix net_id chan nick prefix s =
    let k = chan_key net_id chan in
    elim (lookup k s.channels) [
      | none ↦ s
      | some ch ↦
          if has_key nick ch.members
          then record s {
            channels = put k (record ch { members = put nick prefix ch.members }) s.channels;
          }
          else s
    ]

unfoldable pub del_member : Text → Text → Text → State → State
del_member net_id chan nick s =
    let k = chan_key net_id chan in
    elim (lookup k s.channels) [
      | none ↦ s
      | some ch ↦ record s {
        channels = put k (record ch { members = remove nick ch.members }) s.channels;
      }
    ]
