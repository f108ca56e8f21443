-- ===== src/Legacy/Connection.antt =====
-- `createIRCConnection` and `connectNetwork` of KoreChat.jsx: one WebSocket for each network.
use korechat.Common.{
  ◌++◌, ◌∷◌, [], Text, lit, is_empty, join, trim_end, List, Bool, true, false, Option, none, some,
  set_has, set_add, set_delete, if◌then◌else◌,
}
use korechat.Irc.{split_on}
use korechat.Legacy.{State, Action, set_networks, set_connected, set_active_net}
use korechat.Legacy.Context.{with_props}

unfoldable pub irc_caps : List Text
irc_caps =
    lit "multi-prefix"
    ∷ lit "away-notify"
    ∷ lit "account-notify"
    ∷ lit "extended-join"
    ∷ lit "server-time"
    ∷ lit "message-tags"
    ∷ lit "batch"
    ∷ lit "labeled-response"
    ∷ lit "echo-message"
    ∷ lit "invite-notify"
    ∷ lit "cap-notify"
    ∷ lit "userhost-in-names"
    ∷ lit "chghost"
    ∷ lit "setname"
    ∷ lit "draft/chathistory"
    ∷ []

-- `readyState` of the socket
pub data Ready : Type 0 where
  connecting open_ closing closed_ : Ready

pub record Conn : Type 0 where
  pub ready : Ready
  -- `closed`
  pub closed : Bool

pub data Effect : Type 0 where
  on_open on_close shut : Effect
  on_line wrote : Text → Effect

pub data Event : Type 0 where
  opens closes close : Event
  message send : Text → Event

abbrev crlf : Text
crlf = 13 ∷ 10 ∷ []

-- The registration that `ws.onopen` sends unless the bouncer does it.
unfoldable pub registration : Text → List Effect
unfolding irc_caps
registration nick =
    wrote (lit "CAP LS 302" ++ crlf)
    ∷ wrote (lit "NICK " ++ (nick ++ crlf))
    ∷ wrote (lit "USER " ++ (nick ++ (lit " 0 * :" ++ (nick ++ crlf))))
    ∷ wrote (lit "CAP REQ :" ++ (join (lit " ") irc_caps ++ crlf))
    ∷ wrote (lit "CAP END" ++ crlf)
    ∷ []

unfoldable pub lines : List Text → List Effect
lines [] = []
lines (l ∷ ls) =
    let rest = lines ls in if is_empty (trim_end l) then rest else on_line (trim_end l) ∷ rest

abbrev is_open : Ready → Bool
is_open open_ = true
is_open _ = false

-- `close` of a socket that is closed already does nothing.
abbrev shutting : Ready → Ready
shutting closed_ = closed_
shutting _ = closing

unfoldable pub step : Bool → Text → Event → Conn → Conn × List Effect
unfolding registration lines
step is_bnc nick opens h =
    (record h { ready = open_ }, on_open ∷ (if is_bnc then [] else registration nick))
step is_bnc nick (message chunk) h = (h, lines (split_on 10 chunk))
step is_bnc nick closes h = (record h { ready = closed_ }, if h.closed then [] else on_close ∷ [])
step is_bnc nick (send raw) h = (h, if is_open h.ready then wrote (raw ++ crlf) ∷ [] else [])
step is_bnc nick close h = (record h { closed = true; ready = shutting h.ready }, shut ∷ [])

abbrev marked : Text → Text → State → Action
marked net_id status s = set_networks (with_props net_id ((lit "status", status) ∷ []) s.networks)

-- `connections` by the ids of its networks: the new ones, whether a connection is made, and the
-- actions.
unfoldable pub connect_network : State → Text → List Text → List Text × (Bool × List Action)
unfolding with_props
connect_network s net_id conns = if set_has net_id conns then (conns, (false, [])) else (
  set_add net_id conns,
  (
    true,
    marked net_id (lit "connecting") s
        ∷ (if is_none s.active_network then set_active_net net_id ∷ [] else []),
  ),
)
  where
    is_none : Option Text → Bool
    is_none none = true
    is_none (some t) = is_empty t

-- The callbacks of the connection of a network, with the state that they closed over.
unfoldable pub on_open_of : State → Text → List Action
unfolding with_props
on_open_of s net_id = set_connected net_id false ∷ marked net_id (lit "connecting") s ∷ []

unfoldable pub on_close_of : State → Text → List Text → List Text × List Action
unfolding with_props
on_close_of s net_id conns = (
  set_delete net_id conns,
  set_connected net_id false ∷ marked net_id (lit "disconnected") s ∷ [],
)
