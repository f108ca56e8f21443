-- ===== src/Connections/Loaded.antt =====
-- The networks, their order and their handles after the first load (frontend/app.jsx).
use mathlib.Core.List.{append_assoc}
use korechat.Common.{
  ◌++◌, ◌∷◌, [], ◌≡◌, ◌∙◌, refl, sym, Text, lit, text_eq, Dict, lookup, lookup-put, lookup-remove,
  remove, is_empty, text_eq_iff, Bool-cases, inl, inr, not, ◌&&◌, has_key, has_key-put, set_has,
  set_has-set_add, List, ◌||◌, none, some, if◌then◌else◌, arith,
}
use korechat.Chat.{State, Clock, Action, init, chan_join, net_add, status_chan}
use korechat.Chat.Reducer.{run, reducer}
use korechat.Chat.Networks
use korechat.Chat.Channels
use korechat.Socket.{Effect, Handle, start, step, close}
use korechat.Client.{Refs, ensure_chan}
use korechat.Connections.{Call, closings, close_handle, connect_network}
use korechat.Connections.Managed.{
  Listed, action_of, actions, add_all, ids_of, reorder, load_networks,
}
use korechat.Sidebar.Ordered.{set_has-reordered}

actions-append : (cs ds : List Call) → actions (cs ++ ds) ≡ actions cs ++ actions ds
actions-append [] ds = refl
actions-append (c ∷ cs) ds =
    rw (actions-append cs ds) (sym (append_assoc (action_of c) (actions cs) (actions ds)))

actions-closings : (fs : List Effect) → actions (closings fs) ≡ []
actions-closings [] = refl
actions-closings (f ∷ fs) = actions-closings fs

actions-close_handle :
    (net_id : Text) (conns : Dict Handle) → actions (close_handle net_id conns) ≡ []
unfolding close_handle
actions-close_handle net_id conns =
    elim (lookup net_id conns)
      as (λ q. actions (elim q [ none ↦ [] | some h ↦ closings (step close h).1 ]) ≡ []) [
        | none ↦ refl
        | some h ↦ actions-closings (step close h).1
      ]

-- Of the calls of `connectNetwork` only one is an action: the status window is there. Without an id
-- there is none.
actions-connect_network :
    (refs : Refs) (net_id : Text) (conns : Dict Handle)
    → actions (connect_network refs net_id conns).1
      ≡ (if is_empty net_id then [] else chan_join net_id status_chan ∷ [])
unfolding connect_network ensure_chan text_eq lit
actions-connect_network refs net_id conns = elim (Bool-cases (is_empty net_id)) [
  | inl e ↦ rw e refl
  | inr e ↦
      rw (e, actions-append (close_handle net_id conns) _, actions-close_handle net_id conns) refl
]

module _ (clock : Clock) where
  run-append :
      (as' bs : List Action) (s : State) → run clock s (as' ++ bs) ≡ run clock (run clock s as') bs
  run-append [] bs s = refl
  run-append (a ∷ as') bs s = run-append as' bs _

  -- One turn of the loop.
  state_of : Listed → State → State
  state_of net s = run clock s (
      net_add net.id net.props
      ∷ (if is_empty net.id then [] else chan_join net.id status_chan ∷ []))

  has_key-state_of :
      (net : Listed) (s : State) (id : Text)
      → has_key id (state_of net s).networks ≡ (text_eq net.id id || has_key id s.networks)
  unfolding state_of reducer Networks.net_add Channels.chan_join
  has_key-state_of net s id = elim (Bool-cases (is_empty net.id)) [
    | inl e ↦ rw e (has_key-put net.id id _ s.networks)
    | inr e ↦ rw e (has_key-put net.id id _ s.networks)
  ]

  set_has-state_of :
      (net : Listed) (s : State) (id : Text)
      → set_has id (state_of net s).network_order
        ≡ (text_eq net.id id || set_has id s.network_order)
  unfolding state_of reducer Networks.net_add Channels.chan_join
  set_has-state_of net s id = elim (Bool-cases (is_empty net.id)) [
    | inl e ↦ rw e (set_has-set_add id net.id s.network_order)
    | inr e ↦ rw e (set_has-set_add id net.id s.network_order)
  ]

  run-add_all :
      (refs : Refs) (net : Listed) (nets : List Listed) (conns : Dict Handle) (s : State)
      → run clock s (actions (add_all refs (net ∷ nets) conns).1)
        ≡ run clock
            (state_of net s)
            (actions (add_all refs nets (connect_network refs net.id conns).0).1)
  unfolding add_all state_of
  run-add_all refs net nets conns s =
      rw (actions-append (connect_network refs net.id conns).1 _, actions-connect_network refs)
        (run-append (if is_empty net.id then [] else chan_join net.id status_chan ∷ []) _ _)

  -- What the loop has done to the state, at one id.
  add_all-state :
      (refs : Refs) (nets : List Listed) (conns : Dict Handle) (s : State) (id : Text)
      → (has_key id (run clock s (actions (add_all refs nets conns).1)).networks
          ≡ (set_has id (ids_of nets) || has_key id s.networks))
        × (set_has id (run clock s (actions (add_all refs nets conns).1)).network_order
            ≡ (set_has id (ids_of nets) || set_has id s.network_order))
  unfolding add_all set_has
  add_all-state refs [] conns s id = (refl, refl)
  add_all-state refs (net ∷ nets) conns s id =
      let (known, ordered) =
        add_all-state refs nets (connect_network refs net.id conns).0 (state_of net s) id in
      (
        rw (run-add_all refs net nets conns s, known, has_key-state_of net s id) (ground arith),
        rw (run-add_all refs net nets conns s, ordered, set_has-state_of net s id) (ground arith),
      )

lookup-connect_network :
    (refs : Refs) (net_id id : Text) (conns : Dict Handle)
    → lookup id (connect_network refs net_id conns).0
      ≡ (if text_eq net_id id && not (is_empty id) then some start else lookup id conns)
unfolding connect_network
lookup-connect_network refs net_id id conns = elim (Bool-cases (is_empty net_id)) [
  | inl e ↦ rw e (ground (arith, text_eq_iff net_id id, e))
  | inr e ↦ rw e (
      ground (
        arith,
        text_eq_iff net_id id,
        lookup-put net_id id start (remove net_id conns),
        lookup-remove net_id id conns,
      ))
]

add_all-handles :
    (refs : Refs) (nets : List Listed) (conns : Dict Handle) (id : Text)
    → lookup id (add_all refs nets conns).0
      ≡ (if set_has id (ids_of nets) && not (is_empty id) then some start else lookup id conns)
unfolding add_all set_has
add_all-handles refs [] conns id = refl
add_all-handles refs (net ∷ nets) conns id =
    rw
      (
        add_all-handles refs nets (connect_network refs net.id conns).0 id,
        lookup-connect_network refs net.id id conns,
      )
      (ground arith)

reorder-state :
    (clock : Clock) (saved net_ids : List Text) (s : State) (id : Text)
    → (has_key id (run clock s (actions (reorder saved net_ids))).networks ≡ has_key id s.networks)
      × (set_has id s.network_order ≡ set_has id net_ids
          → set_has id (run clock s (actions (reorder saved net_ids))).network_order
            ≡ set_has id net_ids)
unfolding reorder reducer
reorder-state clock [] net_ids s id = (refl, λ h. h)
reorder-state clock (i ∷ saved) net_ids s id = (refl, λ h. set_has-reordered (i ∷ saved) net_ids id)

-- On a page that has just started, after the first load: a network is in the state and in the order of
-- the networks exactly if the answer lists it, whatever order was saved; and it has a new handle exactly
-- if the answer lists it and its id is not empty.
pub load_networks-agrees :
    (clock : Clock) (refs : Refs) (saved : List Text) (nets : List Listed) (id : Text)
    → let (b, (conns, calls)) = load_networks refs saved (some nets) [] in
      let s = run clock init (actions calls) in
      (has_key id s.networks ≡ set_has id (ids_of nets))
      × (set_has id s.network_order ≡ set_has id (ids_of nets))
      × (lookup id conns
          ≡ (if set_has id (ids_of nets) && not (is_empty id) then some start else none))
unfolding load_networks has_key set_has lookup
load_networks-agrees clock refs saved nets id =
    let as' = actions (add_all refs nets []).1 in
    let (known, ordered) = add_all-state clock refs nets [] init id in
    let (kept, reordered_) = reorder-state clock saved (ids_of nets) (run clock init as') id in
    let split = actions-append (add_all refs nets []).1 (reorder saved (ids_of nets)) in
    let appended = run-append clock as' (actions (reorder saved (ids_of nets))) init in
    (
      rw (split, appended, kept, known) (ground arith),
      rw (split, appended) (reordered_ (ordered ∙ ground arith)),
      add_all-handles refs nets [] id,
    )
