-- ===== src/Client.antt =====
-- What the handlers of the component `KoreChat` share (frontend/app.jsx): its refs, what it reads
-- of the browser, and the effects of a handler, in order.
pub mod Samples
use korechat.Common.{
  ℕ, ◌++◌, ◌∷◌, [], Text, lit, text_eq, starts_with, Dict, set_has, List, Bool, not, ◌&&◌, none,
  get_or_else, get_elem?, if◌then◌else◌,
}
use korechat.Chat.{Action, Channel, Message, system, chan_join, add_msg, status_chan}

-- An entry of `batchBufRef`.
pub record Batch : Type 0 where
  pub type_ : Text
  pub chan : Text
  pub msgs : List (Text × Message)

-- An entry of `whoisBufRef`.
pub record Whois : Type 0 where
  pub nick : Text
  pub lines : List Text

-- A `Ref` whose values are only ever `true` is the list of its keys.
pub record Refs : Type 0 where
  pub my_nick : Dict Text
  pub channels : Dict Channel
  -- `messagesRef`
  pub messages : Dict (List Message)
  pub batch_buf : Dict Batch
  pub names_buf : Dict (Dict Text)
  pub motd_buf : Dict (List Text)
  pub whois_buf : Dict Whois
  pub monitor_unsupported : List Text
  pub replay_done : List Text
  pub default_chans : Dict Text
  pub loaded_history : List Text
  -- the networks whose handle in `connections` is ready
  pub ready : List Text

-- What a handler reads of its surroundings.
pub record Env : Type 0 where
  -- `new Date().toISOString()`
  pub now : Text
  -- `Math.random().toString(36)`
  pub random_id : Text
  -- `getNotifPermission() === "granted"`
  pub notif_granted : Bool
  -- each of `notifPrefs`, `!== false`
  pub only_when_hidden : Bool
  pub notif_dms : Bool
  pub notif_mentions : Bool
  -- `document.hidden`
  pub hidden : Bool

-- What a request of /api/v1/logs is for.
pub data Purpose : Type 0 where
  backfill server_log : Purpose
  membership_log : Purpose

pub data Out : Type 0 where
  -- a request of /api/v1/logs with its parameters
  fetch_logs : Purpose → (net_id chan : Text) → Dict Text → Out
  -- `setLoadingChans`
  set_loading : (key : Text) (loading : Bool) → Out
  dispatch : Action → Out
  -- `connections.current[netId].send(raw)`
  send : (net_id raw : Text) → Out
  -- the same after so many milliseconds, if the connection is ready then
  send_later : (delay : ℕ) (net_id raw : Text) → Out
  load_history : (delay : ℕ) (net_id chan : Text) → Out
  load_server_history : (net_id : Text) → Out
  -- the callback that "replay-done" sets
  settle_replay : (delay : ℕ) (net_id : Text) → Out
  notify : (title body tag : Text) → Out
  reconnect disconnect : (net_id : Text) → Out
  reconnect_later : (delay : ℕ) (net_id : Text) → Out
  set_ignored : (nick : Text) (add : Bool) → Out

-- `addSys`
unfoldable pub add_sys : Text → Text → Text → Text → Text → Out
add_sys net_id chan text subtype time = dispatch (
    add_msg net_id chan
      (record { kind = system; subtype = subtype; nick = none; text = text; time = time; id = [] }))

-- `conn?.ready && !monitorUnsupportedRef.current[netId]`
abbrev pub can_monitor : Refs → Text → Bool
can_monitor refs net_id = set_has net_id refs.ready && not (set_has net_id refs.monitor_unsupported)

unfoldable pub ensure_chan : Refs → Text → Text → List Out
ensure_chan refs net_id chan =
    dispatch (chan_join net_id chan)
    ∷ (if not (text_eq chan status_chan) && not (starts_with chan (lit "#"))
        then if can_monitor refs net_id then send net_id (lit "MONITOR + " ++ chan) ∷ [] else []
        else [])

-- `params[i] || ""`
abbrev pub arg : List Text → ℕ → Text
arg params i = get_or_else (get_elem? params i) []

-- `${params[i]}`
abbrev pub shown : List Text → ℕ → Text
shown params i = get_or_else (get_elem? params i) (lit "undefined")
