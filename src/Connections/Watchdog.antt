-- ===== src/Connections/Watchdog.antt =====
-- The watchdog of frontend/app.jsx: every ten seconds a handle that is neither ready nor connecting is
-- replaced, if its network is known.
use korechat.Common.{
  ◌++◌, ◌∷◌, [], ◌≡◌, refl, Text, Dict, List, Bool, true, false, not, ◌&&◌, set_has, All, arith,
}
use korechat.Socket.{Handle, Event, ready, is_trying, is_closing, is_unset, start, run}
use korechat.Socket.Live.{IsLive, run-start-IsLive}
use korechat.Client.{Refs}
use korechat.Connections.{Call, connect_network}

-- `!conn.ready && !conn.connecting`
unfoldable pub is_idle : Handle → Bool
is_idle h = not (ready h) && not (is_trying h)

-- The loop over the entries that `connections` had, with the connections as they are by then.
unfoldable pub watch : Refs → List Text → Dict Handle → Dict Handle → Dict Handle × List Call
unfolding is_idle
watch refs known [] conns = (conns, [])
watch refs known ((net_id, h) ∷ entries) conns = elim (is_idle h && set_has net_id known) [
  | true ↦
      let (conns', calls) = connect_network refs net_id conns in
      let (last, more) = watch refs known entries conns' in (last, calls ++ more)
  | false ↦ watch refs known entries conns
]

unfoldable pub watchdog : Refs → List Text → Dict Handle → Dict Handle × List Call
unfolding watch
watchdog refs known conns = watch refs known conns conns

-- The handles of a map.
abbrev pub handles : Dict Handle → List Handle
handles [] = []
handles ((net_id, h) ∷ conns) = h ∷ handles conns

-- A handle as the browser left it, not dead, and not one whose first socket is closing before any retry
-- was scheduled.
abbrev pub IsUsed : Handle → Type 0
IsUsed h =
    (es : List Event) × ((h ≡ run es start)
      × ((h.dead ≡ false) × ((is_closing h.socket && is_unset h.timer) ≡ false)))

IsUsed-busy : (h : Handle) → IsUsed h → is_idle h ≡ false
unfolding is_idle ready is_trying
IsUsed-busy h (es, (e, (d, c))) =
    let live : IsLive h = rw e ((run-start-IsLive es).0) in ground (arith, live.busy d)

watch-rest :
    (refs : Refs) (known : List Text) (entries conns : Dict Handle)
    → All IsUsed (handles entries)
    → watch refs known entries conns ≡ (conns, [])
unfolding watch
watch-rest refs known [] conns h = refl
watch-rest refs known ((net_id, hd) ∷ entries) conns h =
    rw (watch, IsUsed-busy hd h.0) (watch-rest refs known entries conns h.1)

-- Whatever events the handles of the networks met since they were made, as long as none of them is
-- dead, and none has a closing socket while no retry was ever scheduled, the watchdog makes no
-- connection, closes none and changes none.
pub watchdog-rest :
    (refs : Refs) (known : List Text) (conns : Dict Handle)
    → All IsUsed (handles conns)
    → watchdog refs known conns ≡ (conns, [])
unfolding watchdog
watchdog-rest refs known conns h = watch-rest refs known conns conns h
