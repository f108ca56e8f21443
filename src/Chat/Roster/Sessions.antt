-- ===== src/Chat/Roster/Sessions.antt =====
-- The roster after the actions of `reducer` (frontend/app.jsx).
use korechat.Common.{◌∷◌, [], ◌≡◌, refl, Text, ◌∙◌, ap, List, arith}
use korechat.Chat.{
  State, Action, Message, Clock, chan_key, net_add, net_update, net_remove, net_del, net_status,
  net_reorder, set_nick, set_active_net, set_active_chan, chan_join, chan_part, chan_rejoin,
  chan_part_remove, set_topic, set_members, replace_members, set_member_prefix, del_member, add_msg,
  prepend_msgs, replay_start, replay_done, sort_msgs, clear_unread, set_presence,
}
use korechat.Chat.Networks
use korechat.Chat.Channels
use korechat.Chat.Messages
use korechat.Chat.Reducer.{reducer, run}
use korechat.Chat.Roster.{
  roster, follow, follow_all, prefix_in-put, prefix_in-remove, prefix_in-drop_network,
}
use korechat.Chat.Roster.Steps.{
  roster-chan_join, roster-chan_rejoin, roster-chan_part, roster-set_topic, roster-set_members,
  roster-set_member_prefix, roster-del_member,
}

module _ (clock : Clock) where
  roster-prepend_kept :
      (k' : Text) (ms : List Message) (ids : List Text) (s : State) (k nick : Text)
      → roster (Messages.prepend_kept clock k' ms ids s) k nick ≡ roster s k nick
  unfolding Messages.prepend_kept
  roster-prepend_kept k' [] ids s k nick = refl
  roster-prepend_kept k' (m ∷ ms) ids s k nick = refl

  roster-reducer :
      (s : State) (a : Action) (k nick : Text)
      → roster (reducer clock s a) k nick ≡ follow a k nick (roster s k nick)
  unfolding reducer
  roster-reducer s (net_add id net) k nick = unfold Networks.net_add in refl
  roster-reducer s (net_update id net) k nick = unfold Networks.net_update in ground arith
  roster-reducer s (net_remove id) k nick =
      unfold Networks.net_remove in prefix_in-drop_network id k nick s.channels
  roster-reducer s (net_del id) k nick =
      unfold Networks.net_del in prefix_in-drop_network id k nick s.channels
  roster-reducer s (net_status id status msg) k nick = unfold Networks.net_status in ground arith
  roster-reducer s (net_reorder order) k nick = refl
  roster-reducer s (set_nick net_id n) k nick = refl
  roster-reducer s (set_active_net id) k nick = refl
  roster-reducer s (set_active_chan net_id chan) k nick = refl
  roster-reducer s (chan_join net_id chan) k nick = roster-chan_join net_id chan k nick s
  roster-reducer s (chan_part net_id chan) k nick = roster-chan_part net_id chan k nick s
  roster-reducer s (chan_rejoin net_id chan) k nick = roster-chan_rejoin net_id chan k nick s
  roster-reducer s (chan_part_remove net_id chan) k nick =
      unfold Channels.chan_part_remove in prefix_in-remove (chan_key net_id chan) k nick s.channels
  roster-reducer s (set_topic net_id chan topic) k nick =
      roster-set_topic net_id chan topic k nick s
  roster-reducer s (set_members net_id chan members) k nick =
      roster-set_members net_id chan members k nick s
  roster-reducer s (replace_members net_id chan members) k nick =
      unfold Channels.replace_members in prefix_in-put (chan_key net_id chan) k nick _ s.channels
  roster-reducer s (set_member_prefix net_id chan n p) k nick =
      roster-set_member_prefix net_id chan n p k nick s
  roster-reducer s (del_member net_id chan n) k nick = roster-del_member net_id chan n k nick s
  roster-reducer s (add_msg net_id chan msg) k nick =
      unfold Messages.add_msg Messages.store_msg in ground arith
  roster-reducer s (prepend_msgs net_id chan msgs) k nick =
      unfold Messages.prepend_msgs in roster-prepend_kept (chan_key net_id chan) _ _ s k nick
  roster-reducer s (replay_start net_id) k nick = refl
  roster-reducer s (replay_done net_id) k nick = refl
  roster-reducer s (sort_msgs net_id) k nick = unfold Messages.sort_msgs in refl
  roster-reducer s (clear_unread net_id chan) k nick = refl
  roster-reducer s (set_presence net_id n status) k nick = unfold Networks.set_presence in refl

  -- The roster, the prefix of each nick at each channel key, is refined by the state: after any
  -- session each entry is what folding `follow` over the actions makes of that entry before it,
  -- whatever else the state holds.
  pub roster-run :
      (s : State) (as' : List Action) (k nick : Text)
      → roster (run clock s as') k nick ≡ follow_all as' k nick (roster s k nick)
  roster-run s [] k nick = refl
  roster-run s (a ∷ as') k nick =
      roster-run (reducer clock s a) as' k nick
      ∙ ap (follow_all as' k nick) (roster-reducer s a k nick)
