-- ===== src/Line.antt =====
-- `handleLine` of frontend/app.jsx: what the client does with one line of a network. The groups of
-- its `switch` are in the modules below; `Line.Handle` puts them together.
pub mod Members
pub mod Names
pub mod Modes
pub mod Replies
pub mod Control
pub mod Privmsg
pub mod Handle
pub mod Kicked
pub mod Tests
pub mod Batches
pub mod Historical
pub mod Touched
pub mod Departed
pub mod Moves
pub mod Gathered
pub mod Staggered
use korechat.Common.{
  ◌++◌, ◌∷◌, [], Text, lit, text_eq, is_empty, Dict, lookup, List, Bool, true, false, not, ◌&&◌,
  ◌||◌, Option, none, some, get_or_else, last, if◌then◌else◌, or_text,
}
use korechat.Chat.{Action, net_prefix}
use korechat.Irc.{Msg, parse_irc, nick_of}
use korechat.Client.{Refs, Env, Out, Batch, add_sys, ensure_chan}

-- The constants that the head of `handleLine` computes.
pub record Ctx : Type 0 where
  pub net_id : Text
  pub env : Env
  pub msg : Msg
  pub time : Text
  pub from : Text
  pub me : Text

unfoldable pub context : Env → Refs → Text → Text → Ctx
context env refs net_id raw =
    let msg = parse_irc raw in
    record {
      net_id = net_id;
      env = env;
      msg = msg;
      time = or_text (get_or_else (lookup (lit "time") msg.tags) []) env.now;
      from = nick_of msg.prefix;
      me = get_or_else (lookup net_id refs.my_nick) [];
    }

-- `sys`
abbrev pub sys : Ctx → Text → Text → Text → Out
sys c chan text subtype = add_sys c.net_id chan text subtype c.time

abbrev pub membership : Text
membership = lit "membership"

-- `tags.batch || ""`
abbrev pub batch_tag : Ctx → Text
batch_tag c = get_or_else (lookup (lit "batch") c.msg.tags) []

-- `b?.type === "chathistory" || b?.type === "draft/chathistory"`
abbrev pub is_chathistory : Text → Bool
is_chathistory t = text_eq t (lit "chathistory") || text_eq t (lit "draft/chathistory")

abbrev pub batch_is_history : Option Batch → Bool
batch_is_history none = false
batch_is_history (some b) = is_chathistory b.type_

-- The line arrived inside a CHATHISTORY batch.
unfoldable pub in_history : Ctx → Refs → Bool
in_history c refs =
    not (is_empty (batch_tag c))
    && batch_is_history (lookup (net_prefix c.net_id ++ batch_tag c) refs.batch_buf)

-- `params[params.length-1] || ""`
abbrev pub last_arg : Ctx → Text
last_arg c = get_or_else (last c.msg.params) []

-- `${params[params.length-1]}`
abbrev pub last_shown : Ctx → Text
last_shown c = get_or_else (last c.msg.params) (lit "undefined")
