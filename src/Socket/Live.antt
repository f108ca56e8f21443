-- ===== src/Socket/Live.antt =====
-- The reconnecting loop of `openWS` (frontend/app.jsx), and its getter `connecting`.
use korechat.Common.{ℕ, ◌≤◌, ◌≡◌, refl, [], ◌∷◌, List, true, false, ◌||◌, ◌&&◌, arith}
use korechat.Socket.{
  Handle, Timer, Event, timer_fires, socket_opens, heartbeat_ticks, becomes_visible, close,
  starts_closing, socket_closes, message, auth_answer, send, pending, is_open, is_connecting,
  is_closing, is_pending, is_unset, is_trying, step, start, run,
}
use korechat.Socket.Backoff.{retry_delay_bounds}

abbrev pub InBounds : Timer → Type 0
InBounds (pending d) = (1000 ≤ d) × (d ≤ 30000)
InBounds _ = Unit

-- A handle that is not dead is open, is connecting, is closing, or waits for a timer of one to thirty
-- seconds, and hears of its socket and of the document.
pub record IsLive (h : Handle) : Type 0 where
  pub busy :
      h.dead ≡ false
      → (is_open h.socket
          || (is_connecting h.socket || (is_closing h.socket || is_pending h.timer)))
        ≡ true
  pub hears : h.dead ≡ false → (h.attached && h.listening) ≡ true
  pub in_bounds : InBounds h.timer

start-IsLive : IsLive start
unfolding start
start-IsLive = record { busy = λ e. refl; hears = λ e. refl; in_bounds = tt }

-- Every event keeps that.
pub step-IsLive : (e : Event) (h : Handle) → IsLive h → IsLive (step e h).0
unfolding step
step-IsLive timer_fires h v = ground arith
step-IsLive socket_opens h v = ground arith
step-IsLive heartbeat_ticks h v = ground arith
step-IsLive becomes_visible h v = ground arith
step-IsLive close h v = ground arith
step-IsLive starts_closing h v = ground arith
step-IsLive (socket_closes code) h v = ground (arith, retry_delay_bounds h.retries)
step-IsLive (message t) h v = ground arith
step-IsLive (auth_answer a) h v = ground arith
step-IsLive (send raw) h v = ground arith

pub run-IsLive : (es : List Event) (h : Handle) → IsLive h → IsLive (run es h)
run-IsLive [] h v = v
run-IsLive (e ∷ es) h v = run-IsLive es (step e h).0 (step-IsLive e h v)

-- A socket that is closing still gets a retry: once it is closed, whatever the code.
pub record Resumes (h : Handle) : Type 0 where
  pub resumes :
      (code : ℕ)
      → h.dead ≡ false
      → is_closing h.socket ≡ true
      → is_pending (step (socket_closes code) h).0.timer ≡ true

IsLive-Resumes : (h : Handle) → IsLive h → Resumes h
unfolding step
IsLive-Resumes h v = record {
  resumes = λ code d c.
      let a : h.attached ≡ true = ground (arith, v.hears d) in rw (a, c, d) (ground arith);
}

-- After every sequence of events a new handle that is not dead is open, is connecting, is closing, or
-- has a retry due after one to thirty seconds, and its callbacks and its listener are in place; and if
-- it is closing, then the end of that, whatever its code, leaves it with a retry that is due.
pub run-start-IsLive : (es : List Event) → IsLive (run es start) × Resumes (run es start)
run-start-IsLive es =
    let v = run-IsLive es start start-IsLive in (v, IsLive-Resumes (run es start) v)

step-set : (e : Event) (h : Handle) → is_unset h.timer ≡ false → is_unset (step e h).0.timer ≡ false
unfolding step
step-set timer_fires h u = ground arith
step-set socket_opens h u = ground arith
step-set heartbeat_ticks h u = ground arith
step-set becomes_visible h u = ground arith
step-set close h u = ground arith
step-set starts_closing h u = ground arith
step-set (socket_closes code) h u = ground arith
step-set (message t) h u = ground arith
step-set (auth_answer a) h u = ground arith
step-set (send raw) h u = ground arith

-- Once a retry was scheduled, `connecting` is true in every later state until the handle is dead,
-- whether or not a retry is due and whether or not the socket is open.
pub is_trying-run :
    (es : List Event) (h : Handle)
    → is_unset h.timer ≡ false
    → (run es h).dead ≡ false
    → is_trying (run es h) ≡ true
unfolding is_trying
is_trying-run [] h u d = ground arith
is_trying-run (e ∷ es) h u d = is_trying-run es (step e h).0 (step-set e h u) d
