-- ===== src/Connections/Managed.antt =====
-- The first load of the networks, and what the page does after the forms of a network
-- (frontend/app.jsx): `onAdded`, `onSaved`, `onDelete`. The saved order is what the profile's
-- `sidebar_network_order` is parsed to; [] also stands for a value that is not an array.
use korechat.Common.{
  ◌++◌, ◌∷◌, [], Text, lit, text_eq, Dict, List, map, Bool, true, false, ◌&&◌, Option, none, some,
  if◌then◌else◌,
}
use korechat.Chat.{Prop, Action, net_add, net_update, net_remove, net_reorder, set_active_net}
use korechat.Socket.{Handle}
use korechat.Client.{Refs, dispatch}
use korechat.Connections.{Call, out, connect_network, disconnect_network}
use korechat.Sidebar.Order.{reordered}

-- A network of the server's answer.
pub record Listed : Type 0 where
  pub id : Text
  pub props : Dict Prop

-- The loop over the answer.
unfoldable pub add_all : Refs → List Listed → Dict Handle → Dict Handle × List Call
unfolding connect_network
add_all refs [] conns = (conns, [])
add_all refs (net ∷ nets) conns =
    let (conns', calls) = connect_network refs net.id conns in
    let (last, more) = add_all refs nets conns' in
    (last, out (dispatch (net_add net.id net.props)) ∷ (calls ++ more))

abbrev pub ids_of : List Listed → List Text
ids_of nets = map (λ net. net.id) nets

-- `NET_REORDER`, if an order is saved.
unfoldable pub reorder : List Text → List Text → List Call
reorder [] net_ids = []
reorder (id ∷ saved) net_ids = out (dispatch (net_reorder (reordered (id ∷ saved) net_ids))) ∷ []

-- The first load; `none` is an answer that is not an array, or none at all. First comes whether
-- `_netOrderReady` is set.
unfoldable pub load_networks :
    Refs → List Text → Option (List Listed) → Dict Handle → Bool × (Dict Handle × List Call)
unfolding add_all reorder
load_networks refs saved none conns = (false, (conns, []))
load_networks refs saved (some nets) conns =
    let (conns', calls) = add_all refs nets conns in
    (true, (conns', calls ++ reorder saved (ids_of nets)))

-- `onAdded`; the network is connected 50 ms later.
unfoldable pub on_added : Listed → List Call
on_added net =
    out (dispatch (net_add net.id net.props)) ∷ out (dispatch (set_active_net (some net.id))) ∷ []

-- `onSaved`: whether the network is connected again 800 ms later, the handles, and the calls. `status`
-- is the network's, `confirmed` the answer to the question.
unfoldable pub on_saved : Text → Bool → Listed → Dict Handle → Bool × (Dict Handle × List Call)
unfolding disconnect_network
on_saved status confirmed updated conns =
    let update = out (dispatch (net_update updated.id updated.props)) in
    if text_eq status (lit "connected") && confirmed
    then (
      true,
      ((disconnect_network updated.id conns).0, update ∷ (disconnect_network updated.id conns).1),
    )
    else (false, (conns, update ∷ []))

-- `onDelete`
unfoldable pub on_delete : Text → Dict Handle → Dict Handle × List Call
unfolding disconnect_network
on_delete id conns = (
  (disconnect_network id conns).0,
  (disconnect_network id conns).1 ++ out (dispatch (net_remove id)) ∷ [],
)

abbrev pub action_of : Call → List Action
action_of (out (dispatch a)) = a ∷ []
action_of c = []

-- The actions among the calls.
abbrev pub actions : List Call → List Action
actions [] = []
actions (c ∷ cs) = action_of c ++ actions cs
