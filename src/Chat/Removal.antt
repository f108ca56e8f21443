-- ===== src/Chat/Removal.antt =====
-- What is left of a network after NET_DEL and NET_REMOVE (frontend/app.jsx, `reducer`).
use korechat.Common.{
  ◌∷◌, [], ◌≡◌, ◌≢◌, refl, Text, text_eq, text_eq_iff, text_eq_refl, Dict, lookup, lookup-remove,
  lookup-reject_keys, set_has, set_has-set_delete, List, false, Option, none, some, arith,
}
use korechat.Chat.{State, Clock, net_del, chan_key}
use korechat.Chat.Keys.{NoColon, starts_with-chan_key}
use korechat.Chat.Networks
use korechat.Chat.Networks.{next_active}
use korechat.Chat.Reducer.{reducer}

-- Nothing of the network is left in the state that the reducer keeps by network or by channel.
pub record IsGone (id : Text) (s : State) : Type 0 where
  pub network : lookup id s.networks ≡ none
  pub order : set_has id s.network_order ≡ false
  pub channels : (chan : Text) → lookup (chan_key id chan) s.channels ≡ none
  pub messages : (chan : Text) → lookup (chan_key id chan) s.messages ≡ none
  pub unread : (chan : Text) → lookup (chan_key id chan) s.unread ≡ none
  pub active_chan : lookup id s.active_chan ≡ none
  pub presence : lookup id s.presence ≡ none
  pub active_net : s.active_net ≢ some id

-- What the states hold of another network is the same.
pub record IsSame (id : Text) (s s' : State) : Type 0 where
  pub network : lookup id s'.networks ≡ lookup id s.networks
  pub order : set_has id s'.network_order ≡ set_has id s.network_order
  pub channels :
      (chan : Text) → lookup (chan_key id chan) s'.channels ≡ lookup (chan_key id chan) s.channels
  pub messages :
      (chan : Text) → lookup (chan_key id chan) s'.messages ≡ lookup (chan_key id chan) s.messages
  pub unread :
      (chan : Text) → lookup (chan_key id chan) s'.unread ≡ lookup (chan_key id chan) s.unread
  pub active_chan : lookup id s'.active_chan ≡ lookup id s.active_chan
  pub presence : lookup id s'.presence ≡ lookup id s.presence

module _ (id : Text) (h : NoColon id) where
  -- The keys of the network's channels are dropped.
  own_key :
      {V : Type 0} (chan : Text) (o : Dict V)
      → lookup (chan_key id chan) (Networks.drop_network id o) ≡ none
  unfolding Networks.drop_network
  own_key chan o = rw (lookup-reject_keys, starts_with-chan_key id chan id h h, text_eq_refl)

  -- Those of another stay.
  other_key :
      {V : Type 0} (j : Text)
      → NoColon j
      → text_eq id j ≡ false
      → (chan : Text) (o : Dict V)
      → lookup (chan_key j chan) (Networks.drop_network id o) ≡ lookup (chan_key j chan) o
  unfolding Networks.drop_network
  other_key j k ne chan o = rw (lookup-reject_keys, starts_with-chan_key j chan id k h, ne)

  next_active-ne :
      (order : List Text) (a : Option Text)
      → set_has id order ≡ false
      → next_active id order a ≢ some id
  unfolding next_active set_has
  next_active-ne order none n e = cc
  next_active-ne [] (some a) n e = ground (arith, text_eq_iff a id)
  next_active-ne (x ∷ xs) (some a) n e = ground (arith, text_eq_iff a id, text_eq_iff x id)

  net_remove-IsGone : (s : State) → IsGone id (Networks.net_remove id s)
  unfolding Networks.net_remove
  net_remove-IsGone s = record {
    network = rw (lookup-remove, text_eq_refl);
    order = rw (set_has-set_delete, text_eq_refl);
    channels = λ chan. own_key chan s.channels;
    messages = λ chan. own_key chan s.messages;
    unread = λ chan. own_key chan s.unread;
    active_chan = rw (lookup-remove, text_eq_refl);
    presence = rw (lookup-remove, text_eq_refl);
    active_net = next_active-ne _ s.active_net (rw (set_has-set_delete, text_eq_refl));
  }

  net_remove-IsSame :
      (s : State) (j : Text)
      → NoColon j
      → text_eq id j ≡ false
      → IsSame j s (Networks.net_remove id s)
  unfolding Networks.net_remove
  net_remove-IsSame s j k ne = record {
    network = rw (lookup-remove, ne);
    order = rw (set_has-set_delete, ne);
    channels = λ chan. other_key j k ne chan s.channels;
    messages = λ chan. other_key j k ne chan s.messages;
    unread = λ chan. other_key j k ne chan s.unread;
    active_chan = rw (lookup-remove, ne);
    presence = rw (lookup-remove, ne);
  }

  net_del-eq-net_remove : (s : State) → Networks.net_del id s ≡ Networks.net_remove id s
  unfolding Networks.net_del Networks.net_remove
  net_del-eq-net_remove s = refl

-- For network ids without a colon: after NET_DEL nothing of the network is left in the networks,
-- their order, the channels, messages, unread counts, active channels and presence, and it is not
-- the active network; of every other network all of that is as before.
pub reducer-net_del :
    (clock : Clock) (id : Text) (s : State)
    → NoColon id
    → IsGone id (reducer clock s (net_del id))
      × ((j : Text) → NoColon j → id ≢ j → IsSame j s (reducer clock s (net_del id)))
unfolding reducer
reducer-net_del clock id s h = rw (net_del-eq-net_remove id h s) (
  net_remove-IsGone id h s,
  λ j k ne. net_remove-IsSame id h s j k (ground (arith, text_eq_iff id j)),
)
