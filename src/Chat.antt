-- ===== src/Chat.antt =====
-- The client's state and the actions that change it: `INIT`, the shapes that `reducer` reads, and
-- `CHAN_KEY` of frontend/app.jsx. The cases of `reducer` are in the modules below.
pub mod Keys
pub mod Networks
pub mod Channels
pub mod Messages
pub mod Reducer
pub mod Stored
pub mod Removal
pub mod Timeline
pub mod Roster
pub mod Tests
use korechat.Common.{
  ℕ, ◌++◌, ◌∷◌, [], Text, lit, Dict, lookup, List, Bool, Option, none, some, get_or_else, false,
  true,
}

-- `type` of a message.
pub data Kind : Type 0 where
  message system : Kind

-- An absent string field is "", which is falsy as `undefined` is. `nick` tells them apart, since
-- the fingerprint prints it.
pub record Message : Type 0 where
  pub kind : Kind
  pub subtype : Text
  pub nick : Option Text
  pub text : Text
  pub time : Text
  pub id : Text

-- What the reducer asks of JavaScript's `Date`, for the texts that it reads as times.
pub record Clock : Type 0 where
  -- `new Date(t).toISOString().slice(0, 16)`
  pub minute : Text → Text
  -- `new Date(t).getTime()`
  pub millis : Text → ℕ
  -- `new Date(n).toISOString()`
  pub iso : ℕ → Text

-- An absent topic is "", and an absent `left` is false.
pub record Channel : Type 0 where
  pub topic : Text
  pub members : Dict Text
  pub left : Bool

-- A property of a network object as the server sends it.
pub data Prop : Type 0 where
  str : Text → Prop
  num : ℕ → Prop
  flag : Bool → Prop

pub record State : Type 0 where
  pub networks : Dict (Dict Prop)
  pub network_order : List Text
  pub channels : Dict Channel
  pub messages : Dict (List Message)
  pub unread : Dict ℕ
  pub active_net : Option Text
  -- a value `none` is the `null` that CHAN_PART_REMOVE may store
  pub active_chan : Dict (Option Text)
  pub my_nick : Dict Text
  pub seen_msg_ids : List Text
  pub replaying : List Text
  pub presence : Dict (Dict Text)

abbrev pub init : State
init = record {
  networks = [];
  network_order = [];
  channels = [];
  messages = [];
  unread = [];
  active_net = none;
  active_chan = [];
  my_nick = [];
  seen_msg_ids = [];
  replaying = [];
  presence = [];
}

pub data Action : Type 0 where
  net_add net_update : (id : Text) → Dict Prop → Action
  net_remove net_del : (id : Text) → Action
  net_status : (id status msg : Text) → Action
  net_reorder : List Text → Action
  set_nick : (net_id nick : Text) → Action
  set_active_net : Option Text → Action
  set_active_chan chan_join chan_part chan_rejoin chan_part_remove : (net_id chan : Text) → Action
  set_topic : (net_id chan topic : Text) → Action
  set_members replace_members : (net_id chan : Text) → Dict Text → Action
  set_member_prefix : (net_id chan nick prefix : Text) → Action
  del_member : (net_id chan nick : Text) → Action
  add_msg : (net_id chan : Text) → Message → Action
  prepend_msgs : (net_id chan : Text) → List Message → Action
  replay_start replay_done sort_msgs : (net_id : Text) → Action
  clear_unread : (net_id chan : Text) → Action
  set_presence : (net_id nick status : Text) → Action

abbrev pub status_chan : Text
status_chan = lit "__status__"

-- `netId + "::"`
unfoldable pub net_prefix : Text → Text
net_prefix net_id = net_id ++ (b':' ∷ b':' ∷ [])

unfoldable pub chan_key : Text → Text → Text
chan_key net_id chan = net_id ++ (b':' ∷ b':' ∷ chan)

-- `s.messages[k] || []`
abbrev pub messages_at : Text → State → List Message
messages_at k s = get_or_else (lookup k s.messages) []

-- `s.activeChan[netId]`, with `null` and `undefined` alike
abbrev pub active_chan_of : Text → State → Option Text
active_chan_of net_id s = get_or_else (lookup net_id s.active_chan) none

abbrev pub unread_at : Text → State → ℕ
unread_at k s = get_or_else (lookup k s.unread) 0
