-- ===== src/Legacy/Bounded.antt =====
-- The number of messages in the state of KoreChat.jsx.
use korechat.Common.{
  ◌≤◌, ◌++◌, ◌∷◌, [], Text, text_eq, Dict, lookup, put, lookup-put, List, length, length-last_n,
  last_n, get_or_else, Bool-cases, Option-cases, inl, inr, arith,
}
use korechat.Chat.{chan_key}
use korechat.Legacy.{
  State, Action, Message, messages_at, init_state, set_networks, add_network, del_network,
  set_connected, set_nick, set_active_net, set_active_chan, add_cap, join_channel, part_channel,
  set_topic, set_members, remove_member, add_message, clear_unread, set_replaying, replay_flush,
}
use korechat.Legacy.Cases
use korechat.Legacy.Reducer.{reducer, run}

-- No channel has more than 500 messages.
abbrev pub IsBounded : Dict (List Message) → Type 0
IsBounded o = (k : Text) → length (get_or_else (lookup k o) []) ≤ 500

IsBounded-put :
    (k : Text) (ms : List Message) (o : Dict (List Message))
    → length ms ≤ 500
    → IsBounded o
    → IsBounded (put k ms o)
IsBounded-put k ms o l h j =
    rw (lookup-put k j ms o)
      (elim (Bool-cases (text_eq k j)) [ inl e ↦ rw e l | inr e ↦ rw e (h j) ])

IsBounded-flush_messages :
    (net_id : Text) (d o : Dict (List Message))
    → IsBounded o
    → IsBounded (Cases.flush_messages net_id d o)
unfolding Cases.flush_messages
IsBounded-flush_messages net_id [] o h = h
IsBounded-flush_messages net_id ((chan, ms) ∷ d) o h =
    IsBounded-flush_messages net_id d _
      (IsBounded-put (chan_key net_id chan) (last_n 500 ms) o (length-last_n 500 ms) h)

reducer-IsBounded :
    (s : State) (a : Action) → IsBounded s.messages → IsBounded (reducer s a).messages
unfolding reducer
reducer-IsBounded s (set_networks ns) h = h
reducer-IsBounded s (add_network n) h = h
reducer-IsBounded s (del_network id) h = h
reducer-IsBounded s (set_connected net_id v) h = h
reducer-IsBounded s (set_nick net_id n) h = h
reducer-IsBounded s (set_active_net net_id) h = h
reducer-IsBounded s (set_active_chan net_id chan) h = h
reducer-IsBounded s (add_cap net_id caps) h = h
reducer-IsBounded s (join_channel net_id chan) h =
    unfold Cases.join_channel in
    IsBounded-put (chan_key net_id chan) _ s.messages (h (chan_key net_id chan)) h
reducer-IsBounded s (part_channel net_id chan) h = unfold Cases.part_channel in h
reducer-IsBounded s (set_topic net_id chan t) h = unfold Cases.set_topic in h
reducer-IsBounded s (set_members net_id chan ms) h = unfold Cases.set_members in h
reducer-IsBounded s (remove_member net_id chan n) h =
    elim (Option-cases (lookup (chan_key net_id chan) s.channels)) [
      | inl e ↦ unfold Cases.remove_member in rw (e, Cases.remove_member) h
      | inr (ch, e) ↦ unfold Cases.remove_member in rw (e, Cases.remove_member) h
    ]
reducer-IsBounded s (add_message net_id chan m) h =
    unfold Cases.add_message in
    IsBounded-put (chan_key net_id chan) _ s.messages
      (length-last_n 500 (messages_at (chan_key net_id chan) s ++ m ∷ [])) h
reducer-IsBounded s (clear_unread net_id chan) h = unfold Cases.clear_unread in h
reducer-IsBounded s (set_replaying net_id v) h = h
reducer-IsBounded s (replay_flush net_id d) h =
    unfold Cases.replay_flush in IsBounded-flush_messages net_id d s.messages h

run_lem : (s : State) (as' : List Action) → IsBounded s.messages → IsBounded (run s as').messages
unfolding run
run_lem s [] h = h
run_lem s (a ∷ as') h = run_lem (reducer s a) as' (reducer-IsBounded s a h)

-- In every session of the older client, whatever its actions and their order, no channel has more
-- than 500 messages afterwards.
pub run-IsBounded :
    (as' : List Action) (k : Text) → length (messages_at k (run init_state as')) ≤ 500
run-IsBounded as' = run_lem init_state as' (λ k. unfold lookup in omega arith)
