-- ===== src/Connections.antt =====
-- `connectNetwork`, `reconnectNetwork` and `disconnectNetwork` of frontend/app.jsx: the handles of
-- the networks, and what the callbacks of a handle do.
pub mod Loaded
pub mod Managed
pub mod Single
pub mod Watchdog
pub mod Tests
use korechat.Common.{
  ◌++◌, ◌∷◌, [], Text, lit, text_eq, is_empty, Dict, lookup, put, remove, List, Bool, Option, none,
  some, get_or_else, if◌then◌else◌,
}
use korechat.Chat.{net_status, replay_start, status_chan}
use korechat.Socket.{
  Handle, Effect, on_line, on_disconnect, on_reconnect, on_auth_expired, new_socket, close_socket,
  check_auth, sent, step, close, start,
}
use korechat.Client.{Env, Refs, Out, dispatch, add_sys, ensure_chan}
use korechat.Line.Handle.{handle_line}

-- What is done besides the effects of handlers: a request of the server, the effects of a handle
-- that is closed or made, or the end of the login.
pub data Call : Type 0 where
  out : Out → Call
  api_connect api_disconnect : (net_id : Text) → Call
  socket : Effect → Call
  logout : Call

abbrev pub outs : List Out → List Call
outs [] = []
outs (o ∷ os) = out o ∷ outs os

abbrev pub closings : List Effect → List Call
closings [] = []
closings (f ∷ fs) = socket f ∷ closings fs

-- `connections.current[netId]?.close()`
unfoldable pub close_handle : Text → Dict Handle → List Call
close_handle net_id conns = elim (lookup net_id conns) [
  | none ↦ []
  | some h ↦ closings (step close h).1
]

-- `if (!net?.id) return`: a network without an id is not connected.
unfoldable pub connect_network : Refs → Text → Dict Handle → Dict Handle × List Call
unfolding close_handle
connect_network refs net_id conns = if is_empty net_id then (conns, []) else (
  put net_id start (remove net_id conns),
  close_handle net_id conns
      ++ (outs (ensure_chan refs net_id status_chan) ++ socket new_socket ∷ []),
)

-- The fields of a network object that are read.
pub record Net : Type 0 where
  pub id : Text
  pub name : Text
  pub host : Text
  pub port : Text

-- `networksRef.current[net.id]?.status` is `status`.
unfoldable pub reconnect_network : Env → Refs → Text → Net → Dict Handle → Dict Handle × List Call
unfolding connect_network
reconnect_network env refs status net conns =
    let notice =
      lit "Connecting to "
      ++ (net.name ++ (lit " (" ++ (net.host ++ (lit ":" ++ (net.port ++ lit ")…"))))) in
    if is_empty net.id then (conns, []) else (
      (connect_network refs net.id conns).0,
      (if text_eq status (lit "connected")
            then []
            else out (add_sys net.id status_chan notice [] env.now) ∷ api_connect net.id ∷ [])
          ++ (connect_network refs net.id conns).1,
    )

unfoldable pub disconnect_network : Text → Dict Handle → Dict Handle × List Call
unfolding close_handle
disconnect_network net_id conns = (
  remove net_id conns,
  api_disconnect net_id
      ∷ (close_handle net_id conns
          ++ out (dispatch (net_status net_id (lit "disconnected") [])) ∷ []),
)

-- The callbacks that `connectNetwork` gives to a handle.
unfoldable pub on_effect : Env → Refs → Text → Effect → Refs × List Call
on_effect env refs net_id (on_line l) =
    let (refs', os) = handle_line env refs net_id l in (refs', outs os)
on_effect env refs net_id on_disconnect =
    (refs, out (dispatch (net_status net_id (lit "disconnected") [])) ∷ [])
on_effect env refs net_id on_reconnect = (
  refs,
  out (dispatch (net_status net_id (lit "connected") []))
      ∷ out (dispatch (replay_start net_id))
      ∷ [],
)
on_effect env refs net_id on_auth_expired = (refs, logout ∷ [])
on_effect env refs net_id f = (refs, [])
