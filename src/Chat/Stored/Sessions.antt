-- ===== src/Chat/Stored/Sessions.antt =====
-- `reducer` (frontend/app.jsx) and the invariant of the message store: one action, and sessions.
use korechat.Common.{
  ◌∷◌, [], ◌≡◌, refl, Text, lookup, lookup-put, lookup-remove, lookup-reject_keys, List, Bool, true,
  false, some, none, Option, get_or_else, if◌then◌else◌, arith,
}
use korechat.Chat.{
  State, Action, Message, Clock, chan_key, net_add, net_update, net_remove, net_del, net_status,
  net_reorder, set_nick, set_active_net, set_active_chan, chan_join, chan_part, chan_rejoin,
  chan_part_remove, set_topic, set_members, replace_members, set_member_prefix, del_member, add_msg,
  prepend_msgs, replay_start, replay_done, sort_msgs, clear_unread, set_presence,
}
use korechat.Chat.Networks
use korechat.Chat.Channels
use korechat.Chat.Reducer.{reducer, run}
use korechat.Chat.Stored.{IsStored, Good, IsValid, nil-IsStored}
use korechat.Chat.Stored.Added.{add_msg-IsStored}
use korechat.Chat.Stored.Prepended.{prepend_msgs-IsStored, sort_msgs-IsStored}

module _ (clock : Clock) where
  -- An action that leaves the messages and the seen ids alone.
  Good-of_same :
      (s s' : State)
      → s'.messages ≡ s.messages
      → s'.seen_msg_ids ≡ s.seen_msg_ids
      → Good s
      → Good s'
  Good-of_same s s' e f v k = rw (e, f) (v k)

  Good-if_removed :
      (b : Bool) (seen : List Text) (o : Option (List Message))
      → IsStored seen (get_or_else o [])
      → IsStored seen (get_or_else (if b then none else o) [])
  Good-if_removed true seen o h = nil-IsStored seen
  Good-if_removed false seen o h = h

  Good-if_put :
      (b : Bool) (seen : List Text) (ms : List Message) (o : Option (List Message))
      → IsStored seen ms
      → IsStored seen (get_or_else o [])
      → IsStored seen (get_or_else (if b then some ms else o) [])
  Good-if_put true seen ms o g h = g
  Good-if_put false seen ms o g h = h

  reducer-Good : (s : State) (a : Action) → Good s → Good (reducer clock s a)
  unfolding reducer
  reducer-Good s (net_add id net) v =
      Good-of_same s (reducer clock s (net_add id net)) (unfold Networks.net_add in refl)
        (unfold Networks.net_add in refl) v
  reducer-Good s (net_update id net) v =
      Good-of_same s (reducer clock s (net_update id net))
        (unfold Networks.net_update in ground arith) (unfold Networks.net_update in ground arith) v
  reducer-Good s (net_remove id) v = λ k.
      unfold Networks.net_remove Networks.drop_network in
      rw lookup-reject_keys (Good-if_removed _ s.seen_msg_ids (lookup k s.messages) (v k))
  reducer-Good s (net_status id status msg) v =
      Good-of_same s (reducer clock s (net_status id status msg))
        (unfold Networks.net_status in ground arith) (unfold Networks.net_status in ground arith) v
  reducer-Good s (net_del id) v = λ k.
      unfold Networks.net_del Networks.drop_network in
      rw lookup-reject_keys (Good-if_removed _ s.seen_msg_ids (lookup k s.messages) (v k))
  reducer-Good s (net_reorder order) v = v
  reducer-Good s (set_nick net_id nick) v = v
  reducer-Good s (set_active_net id) v = v
  reducer-Good s (set_active_chan net_id chan) v = v
  reducer-Good s (chan_join net_id chan) v = λ k.
      unfold Channels.chan_join in
      rw lookup-put
        (Good-if_put _ s.seen_msg_ids _ (lookup k s.messages) (v (chan_key net_id chan)) (v k))
  reducer-Good s (chan_part net_id chan) v =
      Good-of_same s (reducer clock s (chan_part net_id chan)) (unfold Channels.chan_part in refl)
        (unfold Channels.chan_part in refl) v
  reducer-Good s (chan_rejoin net_id chan) v =
      Good-of_same s (reducer clock s (chan_rejoin net_id chan))
        (unfold Channels.chan_rejoin in ground arith) (unfold Channels.chan_rejoin in ground arith)
        v
  reducer-Good s (chan_part_remove net_id chan) v = λ k.
      unfold Channels.chan_part_remove in
      rw lookup-remove (Good-if_removed _ s.seen_msg_ids (lookup k s.messages) (v k))
  reducer-Good s (set_topic net_id chan topic) v =
      Good-of_same s (reducer clock s (set_topic net_id chan topic))
        (unfold Channels.set_topic in ground arith) (unfold Channels.set_topic in ground arith) v
  reducer-Good s (set_members net_id chan members) v =
      Good-of_same s (reducer clock s (set_members net_id chan members))
        (unfold Channels.set_members in refl) (unfold Channels.set_members in refl) v
  reducer-Good s (replace_members net_id chan members) v =
      Good-of_same s (reducer clock s (replace_members net_id chan members))
        (unfold Channels.replace_members in refl) (unfold Channels.replace_members in refl) v
  reducer-Good s (set_member_prefix net_id chan nick prefix) v =
      Good-of_same s (reducer clock s (set_member_prefix net_id chan nick prefix))
        (unfold Channels.set_member_prefix in ground arith)
        (unfold Channels.set_member_prefix in ground arith) v
  reducer-Good s (del_member net_id chan nick) v =
      Good-of_same s (reducer clock s (del_member net_id chan nick))
        (unfold Channels.del_member in ground arith) (unfold Channels.del_member in ground arith) v
  reducer-Good s (add_msg net_id chan msg) v = add_msg-IsStored clock net_id chan msg s v
  reducer-Good s (prepend_msgs net_id chan msgs) v =
      prepend_msgs-IsStored clock net_id chan msgs s v
  reducer-Good s (replay_start net_id) v = v
  reducer-Good s (replay_done net_id) v = v
  reducer-Good s (sort_msgs net_id) v = sort_msgs-IsStored clock net_id s v
  reducer-Good s (clear_unread net_id chan) v = v
  reducer-Good s (set_presence net_id nick status) v =
      Good-of_same s (reducer clock s (set_presence net_id nick status))
        (unfold Networks.set_presence in refl) (unfold Networks.set_presence in refl) v

  -- Every action of the reducer keeps, for each channel: at most 1000 messages, each id that occurs
  -- is recorded as seen, and no two messages share an id.
  pub reducer-IsValid : (s : State) (a : Action) → IsValid s → IsValid (reducer clock s a)
  reducer-IsValid s a v = record { at = reducer-Good s a v.at }

  -- A session of any actions, in any order, keeps the same: from a valid state it ends in one.
  pub run-IsValid : (s : State) (as' : List Action) → IsValid s → IsValid (run clock s as')
  run-IsValid s [] v = v
  run-IsValid s (a ∷ as') v = run-IsValid (reducer clock s a) as' (reducer-IsValid s a v)
