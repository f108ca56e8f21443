-- ===== src/Legacy/Replay.antt =====
-- `replayBufRef`, `addMsg`, `addSys` and `flushReplayBuffer` of KoreChat.jsx: what arrives during a
-- replay is held back.
use korechat.Common.{
  ℕ, ◌++◌, ◌∷◌, [], Text, lit, is_empty, Dict, lookup, put, remove, set_has, set_add, List, take,
  false, not, ◌&&◌, Option, none, some, get_or_else, if◌then◌else◌,
}
use korechat.Common.Sorting.{sort_by}
use korechat.Chat.{system}
use korechat.Legacy.{Message, Action, add_message, replay_flush}

-- An entry of `replayBufRef`.
pub record Buffer : Type 0 where
  pub messages : Dict (List Message)
  pub seen_ids : List Text

-- What a handler does: it changes the buffers of the networks, and dispatches.
abbrev pub Step : Type 0
Step = Dict Buffer → Dict Buffer × List Action

abbrev pub emit : Action → Step
emit a bufs = (bufs, a ∷ [])

-- One after the other.
unfoldable pub in_turn : List Step → Step
in_turn [] bufs = (bufs, [])
in_turn (f ∷ fs) bufs =
    let (bufs', as') = f bufs in let (last, bs) = in_turn fs bufs' in (last, as' ++ bs)

-- `messages[chan] ||= []` and the `push`
abbrev pub hold : Text → Message → Dict (List Message) → Dict (List Message)
hold chan m held = put chan (get_or_else (lookup chan held) [] ++ m ∷ []) held

-- A message under a key that tells copies of it; "" tells none.
unfoldable pub buffer_add : Text → Text → Message → Buffer → Buffer
buffer_add key chan m buf = if not (is_empty key) && set_has key buf.seen_ids then buf else record {
  messages = hold chan m buf.messages;
  seen_ids = if is_empty key then buf.seen_ids else set_add key buf.seen_ids;
}

unfoldable pub add_keyed : Text → Text → Text → Message → Step
add_keyed net_id key chan m bufs = elim (lookup net_id bufs) [
  | none ↦ (bufs, add_message net_id chan m ∷ [])
  | some buf ↦ (put net_id (buffer_add key chan m buf) bufs, [])
]

unfoldable pub add_msg : Text → Text → Message → Step
unfolding add_keyed
add_msg net_id chan m = add_keyed net_id m.id chan m

-- `sys:${chan}:${text}:${bucket}`
unfoldable pub sys_key : Text → Text → Text → Text
sys_key time chan text = lit "sys:" ++ (chan ++ (b':' ∷ (text ++ (b':' ∷ take 16 time))))

abbrev pub system_message : Text → Text → Message
system_message time text = record {
  kind = system;
  nick = none;
  text = text;
  time = time;
  tags = [];
  id = [];
  mine = false;
}

unfoldable pub add_sys : Text → Text → Text → Text → Step
unfolding add_keyed
add_sys net_id time chan text =
    add_keyed net_id (sys_key time chan text) chan (system_message time text)

module _ (millis : Text → ℕ) where
  -- `a.time ? new Date(a.time).getTime() : 0`
  unfoldable pub time_key : Message → ℕ
  time_key m = if is_empty m.time then 0 else millis m.time

  unfoldable pub sorted : Dict (List Message) → Dict (List Message)
  sorted [] = []
  sorted ((chan, msgs) ∷ more) = (chan, sort_by time_key msgs) ∷ sorted more

  abbrev held_messages : Option Buffer → Dict (List Message)
  held_messages none = []
  held_messages (some buf) = buf.messages

  unfoldable pub flush : Text → Step
  unfolding sorted
  flush net_id bufs =
      (remove net_id bufs, replay_flush net_id (sorted (held_messages (lookup net_id bufs))) ∷ [])
