-- ===== src/Legacy.antt =====
-- The older client, KoreChat.jsx: the shapes of its messages, its networks and its state, and the
-- actions of its `reducer`. The modules below follow the parts of that file.
pub mod Parser
pub mod Cases
pub mod Reducer
pub mod Replay
pub mod Context
pub mod Events
pub mod Privmsg
pub mod Handle
pub mod Agrees
pub mod Bounded
pub mod Held
pub mod Flushed
pub mod Send
pub mod Connection
pub mod Input
pub mod Marks
pub mod Tests
use korechat.Common.{ℕ, [], Text, Dict, lookup, List, Bool, Option, none, get_or_else}
use korechat.Chat.{Kind, Prop}

-- An absent string field is "", which is falsy as `undefined` is.
pub record Message : Type 0 where
  pub kind : Kind
  pub nick : Option Text
  pub text : Text
  pub time : Text
  pub tags : Dict Text
  pub id : Text
  pub mine : Bool

-- A network as the server sends it: its id, and its other properties.
pub record Network : Type 0 where
  pub id : Text
  pub props : Dict Prop

-- Absent members are `{}` and an absent topic is "", as everything that reads them takes them.
pub record Channel : Type 0 where
  pub members : Dict Text
  pub topic : Text

pub record State : Type 0 where
  pub networks : List Network
  pub active_network : Option Text
  pub channels : Dict Channel
  pub messages : Dict (List Message)
  pub unread : Dict ℕ
  -- a value `none` is the `null` that PART_CHANNEL may store
  pub active_channel : Dict (Option Text)
  pub my_nick : Dict Text
  pub acked_caps : Dict (List Text)
  pub connected : Dict Bool
  pub replaying : Dict Bool

abbrev pub init_state : State
init_state = record {
  networks = [];
  active_network = none;
  channels = [];
  messages = [];
  unread = [];
  active_channel = [];
  my_nick = [];
  acked_caps = [];
  connected = [];
  replaying = [];
}

pub data Action : Type 0 where
  set_networks : List Network → Action
  add_network : Network → Action
  del_network : (id : Text) → Action
  set_connected : (net_id : Text) → Bool → Action
  set_nick : (net_id nick : Text) → Action
  set_active_net : (net_id : Text) → Action
  set_active_chan : (net_id chan : Text) → Action
  add_cap : (net_id : Text) → List Text → Action
  join_channel part_channel : (net_id chan : Text) → Action
  set_topic : (net_id chan topic : Text) → Action
  set_members : (net_id chan : Text) → Dict Text → Action
  remove_member : (net_id chan nick : Text) → Action
  add_message : (net_id chan : Text) → Message → Action
  clear_unread : (net_id chan : Text) → Action
  set_replaying : (net_id : Text) → Bool → Action
  replay_flush : (net_id : Text) → Dict (List Message) → Action

-- `state.messages[k] || []`
abbrev pub messages_at : Text → State → List Message
messages_at k s = get_or_else (lookup k s.messages) []

-- `activeChannel[netId]`, with `null` and `undefined` alike
abbrev pub active_channel_of : Text → State → Option Text
active_channel_of net_id s = get_or_else (lookup net_id s.active_channel) none
