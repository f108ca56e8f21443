-- ===== src/Socket/Notices.antt =====
-- What the owner of a handle is told (frontend/app.jsx, `openWS`).
use korechat.Common.{
  ℕ, suc, ◌+◌, ◌≤◌, ◌≡◌, refl, [], ◌∷◌, ◌++◌, List, Text, All, All-append, true, false, arith,
  if◌then◌else◌, trim_end,
}
use korechat.Irc.{split_on}
use korechat.Socket.{
  Handle, Event, Effect, timer_fires, socket_opens, heartbeat_ticks, becomes_visible, close,
  starts_closing, socket_closes, message, auth_answer, send, is_open, is_pending, step, trace, shut,
  line_effects, line_effect, on_disconnect, on_auth_expired, close_socket, new_socket,
}

abbrev pub disconnects : List Effect → ℕ
disconnects [] = 0
disconnects (on_disconnect ∷ fs) = suc (disconnects fs)
disconnects (f ∷ fs) = disconnects fs

abbrev pub open_events : List Event → ℕ
open_events [] = 0
open_events (socket_opens ∷ es) = suc (open_events es)
open_events (e ∷ es) = open_events es

disconnects-append :
    (fs gs : List Effect) → disconnects (fs ++ gs) ≡ disconnects fs + disconnects gs
disconnects-append [] gs = omega arith
disconnects-append (on_disconnect ∷ fs) gs = omega (arith, disconnects-append fs gs)
disconnects-append (new_socket ∷ fs) gs = disconnects-append fs gs
disconnects-append (f ∷ fs) gs = disconnects-append fs gs

disconnects-lines : (ls : List Text) → disconnects (line_effects ls) ≡ 0
unfolding line_effects
disconnects-lines [] = refl
disconnects-lines (l ∷ ls) =
    ground
      (arith, disconnects-lines ls, disconnects-append (line_effect (trim_end l)) (line_effects ls))

-- Notices that may still come: one, unless the owner knows of the outage.
abbrev room : Handle → ℕ
room h = if h.notified then 0 else 1

opens_of : Event → ℕ
opens_of e = open_events (e ∷ [])

step-disconnects :
    (e : Event) (h : Handle) → disconnects (step e h).1 + room (step e h).0 ≤ room h + opens_of e
unfolding step opens_of
step-disconnects timer_fires h = ground arith
step-disconnects socket_opens h = ground arith
step-disconnects heartbeat_ticks h = ground arith
step-disconnects becomes_visible h = ground arith
step-disconnects close h = ground arith
step-disconnects starts_closing h = ground arith
step-disconnects (socket_closes code) h = ground arith
step-disconnects (message t) h = ground (arith, disconnects-lines (split_on 10 t))
step-disconnects (auth_answer a) h = ground arith
step-disconnects (send raw) h = ground arith

open_events-cons :
    (e : Event) (es : List Event) → open_events (e ∷ es) ≡ opens_of e + open_events es
unfolding opens_of
open_events-cons socket_opens es = omega arith
open_events-cons timer_fires es = omega arith
open_events-cons e es = omega arith

trace-disconnects :
    (es : List Event) (h : Handle) → disconnects (trace es h) ≤ room h + open_events es
trace-disconnects [] h = omega arith
trace-disconnects (e ∷ es) h = omega (
  arith,
  disconnects-append (step e h).1 (trace es (step e h).0),
  step-disconnects e h,
  trace-disconnects es (step e h).0,
  open_events-cons e es,
)

-- In every run there is at most one notice of a lost connection more than there were connections
-- opened, and at most as many if the owner was told of the present outage.
pub disconnects-le-opens :
    (es : List Event) (h : Handle)
    → (disconnects (trace es h) ≤ 1 + open_events es)
      × (h.notified ≡ true → disconnects (trace es h) ≤ open_events es)
disconnects-le-opens es h =
    (ground (arith, trace-disconnects es h), λ e. ground (arith, trace-disconnects es h))

-- The handle was closed by its owner.
record IsShut (h : Handle) : Type 0 where
  dead : h.dead ≡ true
  detached : h.attached ≡ false
  idle : is_pending h.timer ≡ false
  silent : h.heartbeat ≡ false
  deaf : h.listening ≡ false
  not_open : is_open h.socket ≡ false

shut-IsShut : (h : Handle) → IsShut (shut h).0
unfolding shut
shut-IsShut h = ground arith

-- What a closed handle may still do: close the socket again, and report that the login expired.
abbrev pub IsLate : Effect → Type 0
IsLate on_auth_expired = Unit
IsLate close_socket = Unit
IsLate _ = ⊥

step-IsShut : (e : Event) (h : Handle) → IsShut h → IsShut (step e h).0 × All IsLate (step e h).1
unfolding step
step-IsShut timer_fires h v = ground arith
step-IsShut socket_opens h v = ground arith
step-IsShut heartbeat_ticks h v = ground arith
step-IsShut becomes_visible h v = ground arith
step-IsShut close h v = ground arith
step-IsShut starts_closing h v = ground arith
step-IsShut (socket_closes code) h v = ground arith
step-IsShut (message t) h v = ground arith
step-IsShut (auth_answer a) h v = ground arith
step-IsShut (send raw) h v = ground arith

trace-IsLate : (es : List Event) (h : Handle) → IsShut h → All IsLate (trace es h)
trace-IsLate [] h v = tt
trace-IsLate (e ∷ es) h v =
    let (v', f) = step-IsShut e h v in
    All-append IsLate (step e h).1 (trace es (step e h).0) f (trace-IsLate es (step e h).0 v')

-- After `close` no line is delivered, nothing is sent, no socket is made, no request is started and
-- no loss or return of the connection is reported, whatever happens. An answer to a request that
-- was under way may still report that the login expired.
pub silent_after_close : (es : List Event) (h : Handle) → All IsLate (trace es (step close h).0)
unfolding step
silent_after_close es h = trace-IsLate es (shut h).0 (shut-IsShut h)
