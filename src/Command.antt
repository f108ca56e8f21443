-- ===== src/Command.antt =====
-- `handleSend` of frontend/app.jsx: what the client does with a line that the user enters. Groups
-- of slash commands are in the modules below; `Command.Handle` puts them together.
pub mod Table
pub mod Messages
pub mod Operators
pub mod Queries
pub mod Handle
pub mod Menu
pub mod Clicked
pub mod Switched
pub mod Tests
pub mod Echoed
pub mod Granted
pub mod Offline
use korechat.Common.{
  ◌++◌, ◌∷◌, [], Text, lit, text_eq, is_empty, or_text, set_has, List, Bool, true, false, not, ◌&&◌,
  Option, none, some, get_or_else, get_elem?, if◌then◌else◌,
}
use korechat.Chat.{Message, message, Action, add_msg, set_active_chan, status_chan}
use korechat.Client.{Refs, Env, Out, dispatch, send, add_sys, ensure_chan}

-- What `handleSend` computes before its `switch`, for a selected network. `chan` is "" where the
-- source has `null`.
pub record Input : Type 0 where
  pub net_id : Text
  pub chan : Text
  pub me : Text
  pub refs : Refs
  pub env : Env
  -- `cmd`, `rest` and `args`
  pub cmd : Text
  pub rest : Text
  pub args : List Text

-- `conn?.ready`
abbrev pub is_ready : Input → Bool
is_ready i = set_has i.net_id i.refs.ready

-- `sys`: into the current window, or the status window if there is none
unfoldable pub sys : Input → Text → List Out
sys i t =
    ensure_chan i.refs i.net_id (or_text i.chan status_chan)
    ++ add_sys i.net_id (or_text i.chan status_chan) t [] i.env.now ∷ []

-- `if (!conn?.ready) { sys("Not connected."); break; }`
abbrev pub when_ready : Input → List Out → List Out
when_ready i outs = if is_ready i then outs else sys i (lit "Not connected.")

abbrev pub first : Input → Text
first i = get_or_else (get_elem? i.args 0) []

-- `if (!args[0]) { sys(usage); break; }`
abbrev pub when_first : Input → Text → List Out → List Out
when_first i usage outs = if is_empty (first i) then sys i usage else outs

-- `chan && chan !== STATUS_CHAN ? chan : other`
abbrev pub channel_or : Input → Text → Text
channel_or i other =
    if not (is_empty i.chan) && not (text_eq i.chan status_chan) then i.chan else other

-- `if (!target) { sys(usage); break; }`
abbrev pub when_target : Input → Text → Text → List Out → List Out
when_target i target usage outs = if is_empty target then sys i usage else outs

-- `conn.send(raw)`
abbrev pub raw : Input → Text → Out
raw i t = send i.net_id t

-- The user's own message, shown at once.
abbrev pub own_message : Input → Text → Text → Out
own_message i chan text = dispatch (
    add_msg i.net_id chan (record {
      kind = message;
      subtype = [];
      nick = some i.me;
      text = text;
      time = i.env.now;
      id = i.env.random_id;
    }))

-- The status window is opened and selected.
abbrev pub show_status : Input → List Out
show_status i =
    ensure_chan i.refs i.net_id status_chan ++ dispatch (set_active_chan i.net_id status_chan) ∷ []
