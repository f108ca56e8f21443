-- ===== src/Legacy/Context.antt =====
-- What the cases of `handleLine` of KoreChat.jsx share.
use korechat.Common.{
  ℕ, ◌∷◌, [], Text, lit, text_eq, or_text, Dict, lookup, put, List, get_or_else, if◌then◌else◌,
}
use korechat.Chat.{Prop, str}
use korechat.Legacy.{State, Network, set_networks}
use korechat.Legacy.Parser.{Msg, parse_irc_message, nick_from_prefix}
use korechat.Legacy.Replay.{Step, emit, add_sys}

-- The constants that the head of `handleLine` computes, and the two things it asks of the browser:
-- `Math.random().toString(36)` and `new Date(t).getTime()`.
pub record Ctx : Type 0 where
  pub net_id : Text
  pub state : State
  pub msg : Msg
  pub time : Text
  pub from_nick : Text
  pub nick : Text
  pub random_id : Text
  pub millis : Text → ℕ

-- What the handler reads of its surroundings; `now` is `new Date().toISOString()`.
pub record Env : Type 0 where
  pub now : Text
  pub random_id : Text
  pub millis : Text → ℕ

unfoldable pub context : Env → State → Text → Text → Ctx
context env s net_id line =
    let msg = parse_irc_message line in
    record {
      net_id = net_id;
      state = s;
      msg = msg;
      time = or_text (get_or_else (lookup (lit "time") msg.tags) []) env.now;
      from_nick = nick_from_prefix msg.prefix;
      nick = or_text (get_or_else (lookup net_id s.my_nick) []) (lit "me");
      random_id = env.random_id;
      millis = env.millis;
    }

unfoldable pub write_props : Dict Text → Dict Prop → Dict Prop
write_props [] o = o
write_props ((k, v) ∷ more) o = write_props more (put k (str v) o)

-- `networks.map(n => n.id === netId ? {...n, ...} : n)`, with some properties written
unfoldable pub with_props : Text → Dict Text → List Network → List Network
unfolding write_props
with_props net_id props [] = []
with_props net_id props (n ∷ ns) =
    (if text_eq n.id net_id then record n { props = write_props props n.props } else n)
    ∷ with_props net_id props ns

abbrev pub set_status : Ctx → Dict Text → Step
set_status c props = emit (set_networks (with_props c.net_id props c.state.networks))

abbrev pub sys : Ctx → Text → Text → Step
sys c chan text = add_sys c.net_id c.time chan text
