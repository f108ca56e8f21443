-- ===== src/Socket.antt =====
-- `openWS` of frontend/app.jsx: one handle on a WebSocket that reconnects by itself, as a state
-- machine. An event is what the browser or the caller does; a step gives the effects in order.
pub mod Backoff
pub mod Live
pub mod Notices
pub mod Tests
use korechat.Common.{
  ℕ, zero, suc, ◌+◌, ◌-◌, ◌*◌, ◌^◌, min, ◌++◌, ◌∷◌, [], Text, lit, is_empty, trim_end, List, Bool,
  true, false, not, ◌&&◌, ◌||◌, Option, none, some, ◌==◌, if◌then◌else◌,
}
use korechat.Irc.{split_on}

-- `readyState` of the current socket
pub data Ready : Type 0 where
  connecting open_ closing closed : Ready

-- `retryTimer`: `null`, a timer that is due after so many milliseconds, or the number of one that
-- has fired or was cleared.
pub data Timer : Type 0 where
  unset spent : Timer
  pending : ℕ → Timer

pub record Handle : Type 0 where
  -- `ws`
  pub socket : Option Ready
  -- whether the callbacks of `ws` are set
  pub attached : Bool
  -- `isRetry` of the call of `connect` that made `ws`
  pub is_retry : Bool
  pub dead : Bool
  pub retries : ℕ
  pub timer : Timer
  -- whether the heartbeat interval runs
  pub heartbeat : Bool
  -- `notifiedDisconnect`
  pub notified : Bool
  pub ever_connected : Bool
  -- whether the document still has the listener `onVisibility`
  pub listening : Bool
  -- requests of /api/v1/auth/me that have no answer yet
  pub auth_checks : ℕ

pub data Effect : Type 0 where
  new_socket close_socket check_auth on_disconnect on_reconnect on_auth_expired : Effect
  on_line sent : Text → Effect

pub data Event : Type 0 where
  timer_fires socket_opens heartbeat_ticks becomes_visible close : Event
  -- the closing handshake of the socket begins; its `onclose` is called at the end of it
  starts_closing : Event
  socket_closes : (code : ℕ) → Event
  message : Text → Event
  -- the status of the answer, or `none` if the request fails
  auth_answer : Option ℕ → Event
  send : Text → Event

-- `Math.min(1000 * Math.pow(2, retries), 30000)`
unfoldable pub retry_delay : ℕ → ℕ
retry_delay n = min (1000 * 2 ^ n) 30000

unfoldable pub schedule_retry : Handle → Handle
schedule_retry h = record h { timer = pending (retry_delay h.retries); retries = h.retries + 1 }

abbrev pub is_open : Option Ready → Bool
is_open (some open_) = true
is_open _ = false

abbrev pub is_connecting : Option Ready → Bool
is_connecting (some connecting) = true
is_connecting _ = false

abbrev pub is_closing : Option Ready → Bool
is_closing (some closing) = true
is_closing _ = false

-- the old socket is abandoned
abbrev abandon : Option Ready → List Effect
abandon none = []
abandon (some r) = close_socket ∷ []

unfoldable pub connect : Bool → Handle → Handle × List Effect
connect is_retry h = if h.dead then (h, []) else (
  record h { socket = some connecting; attached = true; is_retry = is_retry; heartbeat = true },
  abandon h.socket ++ new_socket ∷ [],
)

-- `clearTimeout(retryTimer)` leaves the variable as it is.
abbrev clear_timer : Timer → Timer
clear_timer unset = unset
clear_timer spent = spent
clear_timer (pending d) = spent

-- The callback of `ws.onmessage` on one line.
abbrev line_effect : Text → List Effect
line_effect [] = []
line_effect (c ∷ s) = on_line (c ∷ s) ∷ []

unfoldable pub line_effects : List Text → List Effect
line_effects [] = []
line_effects (l ∷ ls) = line_effect (trim_end l) ++ line_effects ls

unfoldable pub opens : Handle → Handle × List Effect
opens h = (
  record h { socket = some open_; retries = 0; notified = false; ever_connected = true },
  if h.is_retry || h.ever_connected then on_reconnect ∷ [] else [],
)

-- `ws.onclose`, for a handle that is not dead
unfoldable pub closes : ℕ → Handle → Handle × List Effect
unfolding schedule_retry
closes code h =
    let asks = code == 1008 || code == 1006 in
    (
      schedule_retry (record h {
        socket = some closed;
        heartbeat = false;
        notified = true;
        auth_checks = if asks then h.auth_checks + 1 else h.auth_checks;
      }),
      (if asks then check_auth ∷ [] else []) ++ (if h.notified then [] else on_disconnect ∷ []),
    )

-- `onVisibility`, when the document is visible
unfoldable pub visibility : Handle → Handle × List Effect
unfolding connect
visibility h =
    if is_open h.socket
    then (h, [])
    else connect true (record h { timer = clear_timer h.timer; retries = 0 })

unfoldable pub auth_result : Option ℕ → Handle → Handle × List Effect
auth_result none h = (record h { auth_checks = h.auth_checks - 1 }, [])
auth_result (some status) h =
    if status == 401
    then (record h { auth_checks = h.auth_checks - 1; dead = true }, on_auth_expired ∷ [])
    else (record h { auth_checks = h.auth_checks - 1 }, [])

-- `close` of a socket that is closed already does nothing
abbrev shutting : Option Ready → Option Ready
shutting none = none
shutting (some closed) = some closed
shutting (some r) = some closing

-- the method `close` of the handle; the socket is closing until the browser is done with it
unfoldable pub shut : Handle → Handle × List Effect
shut h = (
  record h {
    dead = true;
    heartbeat = false;
    timer = clear_timer h.timer;
    listening = false;
    attached = false;
    socket = shutting h.socket;
  },
  abandon h.socket,
)

abbrev pub is_pending : Timer → Bool
is_pending (pending d) = true
is_pending _ = false

-- An event that cannot happen in a state changes nothing: a socket without callbacks reports
-- nothing, and a timer or an interval that is not set does not fire.
unfoldable pub step : Event → Handle → Handle × List Effect
unfolding connect opens closes visibility auth_result shut line_effects
step timer_fires h =
    if is_pending h.timer then connect true (record h { timer = spent }) else (h, [])
step socket_opens h = if h.attached && is_connecting h.socket then opens h else (h, [])
step (socket_closes code) h =
    if h.attached && (is_connecting h.socket || is_open h.socket || is_closing h.socket)
    then (if h.dead then (record h { socket = some closed }, []) else closes code h)
    else (h, [])
step starts_closing h =
    if is_connecting h.socket || is_open h.socket
    then (record h { socket = some closing }, [])
    else (h, [])
step (message t) h =
    if h.attached && is_open h.socket then (h, line_effects (split_on 10 t)) else (h, [])
step heartbeat_ticks h =
    if h.heartbeat && is_open h.socket
    then (h, sent (lit "PING :kc-heartbeat" ++ (13 ∷ 10 ∷ [])) ∷ [])
    else (h, [])
step becomes_visible h = if h.listening then visibility h else (h, [])
step (auth_answer a) h = if h.auth_checks == 0 then (h, []) else auth_result a h
step (send raw) h = if is_open h.socket then (h, sent (raw ++ (13 ∷ 10 ∷ [])) ∷ []) else (h, [])
step close h = shut h

unfoldable pub start : Handle
unfolding connect
start =
    (connect false (record {
      socket = none;
      attached = false;
      is_retry = false;
      dead = false;
      retries = 0;
      timer = unset;
      heartbeat = false;
      notified = false;
      ever_connected = false;
      listening = true;
      auth_checks = 0;
    })).0

-- The getters `ready` and `connecting`.
unfoldable pub ready : Handle → Bool
ready h = is_open h.socket

abbrev pub is_unset : Timer → Bool
is_unset unset = true
is_unset _ = false

unfoldable pub is_trying : Handle → Bool
is_trying h =
    if h.dead
    then false
    else if not (is_unset h.timer)
    then true
    else is_open h.socket || is_connecting h.socket

abbrev pub run : List Event → Handle → Handle
run [] h = h
run (e ∷ es) h = run es (step e h).0

-- The effects of a run, in order.
abbrev pub trace : List Event → Handle → List Effect
trace [] h = []
trace (e ∷ es) h = (step e h).1 ++ trace es (step e h).0
