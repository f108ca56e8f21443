-- ===== src/Legacy/Reducer.antt =====
-- `reducer` of KoreChat.jsx: one case for each action.
use korechat.Common.{◌++◌, ◌∷◌, [], lookup, put, List, some, get_or_else}
use korechat.Legacy.{
  State, Action, set_networks, add_network, del_network, set_connected, set_nick, set_active_net,
  set_active_chan, add_cap, join_channel, part_channel, set_topic, set_members, remove_member,
  add_message, clear_unread, set_replaying, replay_flush,
}
use korechat.Legacy.Cases

unfoldable pub reducer : State → Action → State
reducer s (set_networks networks) = record s { networks = networks }
reducer s (add_network network) = record s { networks = s.networks ++ network ∷ [] }
reducer s (del_network id) = record s { networks = Cases.without_network id s.networks }
reducer s (set_connected net_id val) = record s { connected = put net_id val s.connected }
reducer s (set_nick net_id nick) = record s { my_nick = put net_id nick s.my_nick }
reducer s (set_active_net net_id) = record s { active_network = some net_id }
reducer s (set_active_chan net_id chan) = record s {
  active_channel = put net_id (some chan) s.active_channel;
}
reducer s (add_cap net_id caps) = record s {
  acked_caps =
      put net_id (Cases.add_distinct [] (get_or_else (lookup net_id s.acked_caps) [] ++ caps))
        s.acked_caps;
}
reducer s (join_channel net_id chan) = Cases.join_channel net_id chan s
reducer s (part_channel net_id chan) = Cases.part_channel net_id chan s
reducer s (set_topic net_id chan topic) = Cases.set_topic net_id chan topic s
reducer s (set_members net_id chan members) = Cases.set_members net_id chan members s
reducer s (remove_member net_id chan nick) = Cases.remove_member net_id chan nick s
reducer s (add_message net_id chan msg) = Cases.add_message net_id chan msg s
reducer s (clear_unread net_id chan) = Cases.clear_unread net_id chan s
reducer s (set_replaying net_id val) = record s { replaying = put net_id val s.replaying }
reducer s (replay_flush net_id channel_data) = Cases.replay_flush net_id channel_data s

unfoldable pub run : State → List Action → State
run s [] = s
run s (a ∷ as') = run (reducer s a) as'
