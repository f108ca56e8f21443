-- ===== src/Legacy/Send.antt =====
-- `handleSend` of KoreChat.jsx.
use korechat.Common.{
  ◌++◌, ◌∷◌, [], Text, lit, starts_with, is_empty, or_text, Dict, lookup, join, List, map, drop,
  Bool, true, false, none, some, get_or_else, if◌then◌else◌,
}
use korechat.Chat.{message, system}
use korechat.Irc.{split_on, upper_char}
use korechat.Client.{arg, shown}
use korechat.Legacy.{State, Action, add_message, active_channel_of}

-- What the handler does: a line to the connection, if there is one, or an action.
pub data Out : Type 0 where
  send : Text → Out
  dispatch : Action → Out

-- The selected network and channel, the user's nick there, and what is read of the browser.
pub record Ctx : Type 0 where
  pub net_id : Text
  pub chan : Text
  pub nick : Text
  pub now : Text
  pub random_id : Text

pub data Verb : Type 0 where
  join_ part_ topic_ nick_ away_ back_ me_ msg_ names_ list_ quit_ : Verb

unfoldable pub labels : Dict Verb
labels =
    (lit "JOIN", join_)
    ∷ (lit "PART", part_)
    ∷ (lit "TOPIC", topic_)
    ∷ (lit "NICK", nick_)
    ∷ (lit "AWAY", away_)
    ∷ (lit "BACK", back_)
    ∷ (lit "ME", me_)
    ∷ (lit "MSG", msg_)
    ∷ (lit "NAMES", names_)
    ∷ (lit "LIST", list_)
    ∷ (lit "QUIT", quit_)
    ∷ []

abbrev own : Ctx → Text → Bool → Out
own c text mine = dispatch (
    add_message c.net_id c.chan (record {
      kind = message;
      nick = some c.nick;
      text = text;
      time = c.now;
      tags = [];
      id = c.random_id;
      mine = mine;
    }))

-- `args.join(" ")`
abbrev words_of : List Text → Text
words_of args = join (lit " ") args

unfoldable pub on_verb : Ctx → List Text → Verb → List Out
on_verb c args join_ = send (lit "JOIN " ++ shown args 0) ∷ []
on_verb c args part_ =
    send (lit "PART " ++ (c.chan ++ (lit " :" ++ or_text (words_of args) (lit "Leaving")))) ∷ []
on_verb c args topic_ = send (lit "TOPIC " ++ (c.chan ++ (lit " :" ++ words_of args))) ∷ []
on_verb c args nick_ = send (lit "NICK " ++ shown args 0) ∷ []
on_verb c args away_ = send (lit "AWAY :" ++ words_of args) ∷ []
on_verb c args back_ = send (lit "AWAY") ∷ []
on_verb c args me_ =
    send (
      lit "PRIVMSG "
      ++ (c.chan ++ (lit " :" ++ ((1 ∷ lit "ACTION ") ++ (words_of args ++ (1 ∷ []))))))
    ∷ own c (lit "* " ++ (c.nick ++ (lit " " ++ words_of args))) false
    ∷ []
on_verb c args msg_ =
    send (lit "PRIVMSG " ++ (shown args 0 ++ (lit " :" ++ words_of (drop 1 args)))) ∷ []
on_verb c args names_ = send (lit "NAMES " ++ c.chan) ∷ []
on_verb c args list_ = send (lit "LIST") ∷ []
on_verb c args quit_ = send (lit "QUIT :" ++ or_text (words_of args) (lit "KoreChat")) ∷ []

unfoldable pub command : Ctx → Text → List Out
unfolding labels on_verb
command c text =
    let parts = split_on b' ' (drop 1 text) in
    let raw_cmd = arg parts 0 in
    elim (lookup (map upper_char raw_cmd) labels) [
      | some verb ↦ on_verb c (drop 1 parts) verb
      | none ↦
          dispatch (
            add_message c.net_id c.chan (record {
              kind = system;
              nick = none;
              text = lit "Unknown command: /" ++ raw_cmd;
              time = c.now;
              tags = [];
              id = [];
              mine = false;
            }))
          ∷ []
    ]

unfoldable pub send_text : Ctx → Text → List Out
unfolding command
send_text c text =
    if starts_with text (lit "/")
    then command c text
    else send (lit "PRIVMSG " ++ (c.chan ++ (lit " :" ++ text))) ∷ own c text true ∷ []

-- Without a selected network and channel nothing is done; `none` and "" are both falsy.
unfoldable pub handle_send : Text → Text → State → Text → List Out
handle_send now random_id s text =
    let net_id = get_or_else s.active_network [] in
    let chan = get_or_else (active_channel_of net_id s) [] in
    if is_empty net_id
    then []
    else if is_empty chan
    then []
    else send_text
        (record {
          net_id = net_id;
          chan = chan;
          nick = or_text (get_or_else (lookup net_id s.my_nick) []) (lit "me");
          now = now;
          random_id = random_id;
        })
        text
