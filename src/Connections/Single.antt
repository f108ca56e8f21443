-- ===== src/Connections/Single.antt =====
-- The handles after `connectNetwork` and `disconnectNetwork` (frontend/app.jsx).
use korechat.Common.{
  [], ◌≡◌, Text, text_eq, text_eq_refl, is_empty, Dict, lookup, lookup-put, lookup-remove, none,
  some, false,
}
use korechat.Socket.{Handle, start}
use korechat.Socket.Live.{IsLive, run-start-IsLive}
use korechat.Client.{Refs}
use korechat.Connections.{connect_network, disconnect_network}

-- If the id is not empty: after `connectNetwork` the network has a new handle that is live, whatever was there before; after
-- `disconnectNetwork` it has none; and either leaves the handles of other networks alone.
pub connections-single :
    (refs : Refs) (net_id : Text) (conns : Dict Handle)
    → is_empty net_id ≡ false
    → (lookup net_id (connect_network refs net_id conns).0 ≡ some start)
      × IsLive start
      × (lookup net_id (disconnect_network net_id conns).0 ≡ none)
      × ((other : Text)
          → text_eq net_id other ≡ false
          → (lookup other (connect_network refs net_id conns).0 ≡ lookup other conns)
            × (lookup other (disconnect_network net_id conns).0 ≡ lookup other conns))
unfolding connect_network disconnect_network
connections-single refs net_id conns h = (
  rw (h, lookup-put, text_eq_refl net_id),
  (run-start-IsLive []).0,
  rw (lookup-remove, text_eq_refl net_id),
  λ other ne. (rw (h, lookup-put, ne) (rw (lookup-remove, ne)), rw (lookup-remove, ne)),
)
