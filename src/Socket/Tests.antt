-- ===== src/Socket/Tests.antt =====
-- Runs of a handle, and the theorems at them.
use korechat.Common.{◌+◌, ◌≤◌, ◌≡◌, ◌∷◌, [], refl, List, true, All}
use korechat.Socket.{
  Handle, Event, new_socket, on_disconnect, on_reconnect, timer_fires, socket_opens, starts_closing,
  socket_closes, close, step, start, run, trace, retry_delay, connect, opens, closes,
  schedule_retry, check_auth, close_socket,
}
use korechat.Socket.Live.{IsLive, Resumes, run-start-IsLive}
use korechat.Socket.Notices.{
  disconnects, open_events, disconnects-le-opens, IsLate, silent_after_close,
}

-- The connection opens, is lost, fails once more, and comes back.
abbrev outage : List Event
outage =
    socket_opens
    ∷ starts_closing
    ∷ socket_closes 1001
    ∷ timer_fires
    ∷ socket_closes 1006
    ∷ timer_fires
    ∷ socket_opens
    ∷ []

trace-outage :
    trace outage start
    ≡ on_disconnect ∷ close_socket ∷ new_socket ∷ check_auth ∷ close_socket ∷ new_socket
      ∷ on_reconnect ∷ []
unfolding step start connect opens closes schedule_retry retry_delay
trace-outage = refl

run-start-IsLive_example : IsLive (run outage start) × Resumes (run outage start)
run-start-IsLive_example = run-start-IsLive outage

-- A handle that has just lost its connection.
abbrev lost : Handle
lost = run (socket_opens ∷ socket_closes 1001 ∷ []) start

disconnects-le-opens_example :
    (disconnects (trace outage start) ≤ 1 + open_events outage)
    × (start.notified ≡ true → disconnects (trace outage start) ≤ open_events outage)
disconnects-le-opens_example = disconnects-le-opens outage start

silent_after_close_example : All IsLate (trace outage (step close start).0)
silent_after_close_example = silent_after_close outage start
