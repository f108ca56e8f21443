-- ===== src/Chat/Reducer.antt =====
-- `reducer` (frontend/app.jsx): one case for each action.
use korechat.Common.{[], ◌∷◌, List, some, put, set_add, set_delete}
use korechat.Chat.{
  State, Action, Clock, net_add, net_update, net_remove, net_del, net_status, net_reorder, set_nick,
  set_active_net, set_active_chan, chan_join, chan_part, chan_rejoin, chan_part_remove, set_topic,
  set_members, replace_members, set_member_prefix, del_member, add_msg, prepend_msgs, replay_start,
  replay_done, sort_msgs, clear_unread, set_presence, chan_key,
}
use korechat.Chat.Networks
use korechat.Chat.Channels
use korechat.Chat.Messages

module _ (clock : Clock) where
  unfoldable pub reducer : State → Action → State
  reducer s (net_add id net) = Networks.net_add id net s
  reducer s (net_update id net) = Networks.net_update id net s
  reducer s (net_remove id) = Networks.net_remove id s
  reducer s (net_status id status msg) = Networks.net_status id status msg s
  reducer s (net_del id) = Networks.net_del id s
  reducer s (net_reorder order) = record s { network_order = order }
  reducer s (set_nick net_id nick) = record s { my_nick = put net_id nick s.my_nick }
  reducer s (set_active_net id) = record s { active_net = id }
  reducer s (set_active_chan net_id chan) = record s {
    active_chan = put net_id (some chan) s.active_chan;
  }
  reducer s (chan_join net_id chan) = Channels.chan_join net_id chan s
  reducer s (chan_part net_id chan) = Channels.chan_part net_id chan s
  reducer s (chan_rejoin net_id chan) = Channels.chan_rejoin net_id chan s
  reducer s (chan_part_remove net_id chan) = Channels.chan_part_remove net_id chan s
  reducer s (set_topic net_id chan topic) = Channels.set_topic net_id chan topic s
  reducer s (set_members net_id chan members) = Channels.set_members net_id chan members s
  reducer s (replace_members net_id chan members) = Channels.replace_members net_id chan members s
  reducer s (set_member_prefix net_id chan nick prefix) =
      Channels.set_member_prefix net_id chan nick prefix s
  reducer s (del_member net_id chan nick) = Channels.del_member net_id chan nick s
  reducer s (add_msg net_id chan msg) = Messages.add_msg clock net_id chan msg s
  reducer s (prepend_msgs net_id chan msgs) = Messages.prepend_msgs clock net_id chan msgs s
  reducer s (replay_start net_id) = record s { replaying = set_add net_id s.replaying }
  reducer s (replay_done net_id) = record s { replaying = set_delete net_id s.replaying }
  reducer s (sort_msgs net_id) = Messages.sort_msgs clock net_id s
  reducer s (clear_unread net_id chan) = record s { unread = put (chan_key net_id chan) 0 s.unread }
  reducer s (set_presence net_id nick status) = Networks.set_presence net_id nick status s

  -- The actions of a session, in the order in which they are dispatched.
  abbrev pub run : State → List Action → State
  run s [] = s
  run s (a ∷ as') = run (reducer s a) as'
