-- ===== src/Chat/Networks.antt =====
-- The cases of `reducer` on networks, nicks and presence (frontend/app.jsx).
use korechat.Common.{
  ◌∷◌, [], Text, lit, text_eq, starts_with, or_text, is_empty, Dict, lookup, put, remove,
  reject_keys, merge, set_add, set_delete, List, Option, none, some, get_or_else, if◌then◌else◌,
}
use korechat.Chat.{State, Prop, str, net_prefix}

-- `o[k]` where a string is wanted
unfoldable pub text_prop : Text → Dict Prop → Text
text_prop k o = elim (lookup k o) [ some (str t) ↦ t | _ ↦ [] ]

unfoldable pub net_add : Text → Dict Prop → State → State
unfolding text_prop
net_add id net s = record s {
  networks =
      put id
        (put (lit "status") (str (or_text (text_prop (lit "status") net) (lit "disconnected"))) net)
        s.networks;
  network_order = set_add id s.network_order;
}

unfoldable pub net_update : Text → Dict Prop → State → State
net_update id net s = elim (lookup id s.networks) [
  | none ↦ s
  | some old ↦ record s { networks = put id (merge old net) s.networks }
]

-- The entries whose keys do not start with the network's prefix.
unfoldable pub drop_network {ℓ} : {V : Type ℓ} → Text → Dict V → Dict V
drop_network id o = reject_keys (λ k. starts_with k (net_prefix id)) o

-- `s.activeNet === id ? (order[0] || null) : s.activeNet`
unfoldable pub next_active : Text → List Text → Option Text → Option Text
next_active id order none = none
next_active id order (some a) =
    if text_eq a id
    then elim order [ [] ↦ none | x ∷ _ ↦ if is_empty x then none else some x ]
    else some a

unfoldable pub net_remove : Text → State → State
unfolding next_active drop_network
net_remove id s = record s {
  networks = remove id s.networks;
  network_order = set_delete id s.network_order;
  channels = drop_network id s.channels;
  messages = drop_network id s.messages;
  unread = drop_network id s.unread;
  active_chan = remove id s.active_chan;
  presence = remove id s.presence;
  active_net = next_active id (set_delete id s.network_order) s.active_net;
}

unfoldable pub net_status : Text → Text → Text → State → State
net_status id status msg s = elim (lookup id s.networks) [
  | none ↦ s
  | some old ↦ record s {
    networks =
        put id (put (lit "status_msg") (str msg) (put (lit "status") (str status) old)) s.networks;
  }
]

-- The source writes this case out again, with the same statements as NET_REMOVE.
unfoldable pub net_del : Text → State → State
unfolding next_active drop_network
net_del id s = record s {
  networks = remove id s.networks;
  network_order = set_delete id s.network_order;
  channels = drop_network id s.channels;
  messages = drop_network id s.messages;
  unread = drop_network id s.unread;
  active_chan = remove id s.active_chan;
  presence = remove id s.presence;
  active_net = next_active id (set_delete id s.network_order) s.active_net;
}

unfoldable pub set_presence : Text → Text → Text → State → State
set_presence net_id nick status s = record s {
  presence = put net_id (put nick status (get_or_else (lookup net_id s.presence) [])) s.presence;
}
