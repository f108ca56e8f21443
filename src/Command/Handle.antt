-- ===== src/Command/Handle.antt =====
-- The `switch` of `handleSend` (frontend/app.jsx).
use korechat.Common.{
  ◌++◌, ◌∷◌, [], Text, lit, starts_with, is_empty, Dict, lookup, List, map, none, some, get_or_else,
  if◌then◌else◌, trim, words, lower, drop,
}
use korechat.Chat.{net_status}
use korechat.Irc.{break_at}
use korechat.Client.{Refs, Env, Out, dispatch, reconnect, disconnect, reconnect_later, add_sys}
use korechat.Command.{Input, sys, first}
use korechat.Command.Table.{commands}
use korechat.Command.Messages
use korechat.Command.Operators
use korechat.Command.Queries

pub data Verb : Type 0 where
  connect_ disconnect_ reconnect_ join_ part_ close_ msg me_ notice_ nick_ oper_ away_ back_ : Verb
  topic_ kick_ ban_ unban_ kickban_ op deop voice devoice halfop dehalfop mode_ invite_ : Verb
  whois_ who_ names_ list_ whowas_ stats links time_ version info motd lusers map_ ping_ : Verb
  ctcp_ ignore_ unignore_ raw_ clear help : Verb

unfoldable pub labels : Dict Verb
labels =
    (lit "/connect", connect_)
    ∷ (lit "/disconnect", disconnect_)
    ∷ (lit "/reconnect", reconnect_)
    ∷ (lit "/join", join_)
    ∷ (lit "/part", part_)
    ∷ (lit "/leave", part_)
    ∷ (lit "/close", close_)
    ∷ (lit "/msg", msg)
    ∷ (lit "/query", msg)
    ∷ (lit "/me", me_)
    ∷ (lit "/notice", notice_)
    ∷ (lit "/nick", nick_)
    ∷ (lit "/oper", oper_)
    ∷ (lit "/away", away_)
    ∷ (lit "/back", back_)
    ∷ (lit "/topic", topic_)
    ∷ (lit "/kick", kick_)
    ∷ (lit "/ban", ban_)
    ∷ (lit "/unban", unban_)
    ∷ (lit "/kickban", kickban_)
    ∷ (lit "/op", op)
    ∷ (lit "/deop", deop)
    ∷ (lit "/voice", voice)
    ∷ (lit "/devoice", devoice)
    ∷ (lit "/halfop", halfop)
    ∷ (lit "/dehalfop", dehalfop)
    ∷ (lit "/mode", mode_)
    ∷ (lit "/invite", invite_)
    ∷ (lit "/whois", whois_)
    ∷ (lit "/who", who_)
    ∷ (lit "/names", names_)
    ∷ (lit "/list", list_)
    ∷ (lit "/whowas", whowas_)
    ∷ (lit "/stats", stats)
    ∷ (lit "/links", links)
    ∷ (lit "/time", time_)
    ∷ (lit "/version", version)
    ∷ (lit "/info", info)
    ∷ (lit "/motd", motd)
    ∷ (lit "/lusers", lusers)
    ∷ (lit "/map", map_)
    ∷ (lit "/ping", ping_)
    ∷ (lit "/ctcp", ctcp_)
    ∷ (lit "/ignore", ignore_)
    ∷ (lit "/unignore", unignore_)
    ∷ (lit "/quote", raw_)
    ∷ (lit "/raw", raw_)
    ∷ (lit "/clear", clear)
    ∷ (lit "/help", help)
    ∷ []

-- `s.replace(/^\//, "")`
abbrev pub strip_slash : Text → Text
strip_slash s = if starts_with s (lit "/") then drop 1 s else s

-- `disconnectNetwork`, whose last statement marks the network.
abbrev disconnecting : Text → List Out
disconnecting net_id = disconnect net_id ∷ dispatch (net_status net_id (lit "disconnected") []) ∷ []

unfoldable pub clear_window : Input → List Out
clear_window i =
    if is_empty i.chan then [] else add_sys i.net_id i.chan (lit "── cleared ──") [] i.env.now ∷ []

unfoldable pub help_lines : Input → List Out
help_lines i =
    let all_commands =
      map (λ (e : Text × Text). add_sys i.net_id i.chan (e.0 ++ (lit " — " ++ e.1)) [] i.env.now)
        commands in
    if is_empty i.chan
    then []
    else if is_empty (first i)
    then all_commands
    else elim (lookup (lit "/" ++ strip_slash (first i)) commands) [
      | none ↦ all_commands
      | some description ↦
          add_sys i.net_id i.chan (i.cmd ++ (lit ": " ++ description)) [] i.env.now ∷ []
    ]

unfoldable pub on_verb : Input → Verb → List Out
on_verb i connect_ = reconnect i.net_id ∷ []
on_verb i disconnect_ = disconnecting i.net_id
on_verb i reconnect_ = disconnecting i.net_id ++ reconnect_later 800 i.net_id ∷ []
on_verb i join_ = Messages.join_channel i
on_verb i part_ = Messages.part_channel i
on_verb i close_ = Messages.close_window i
on_verb i msg = Messages.private_message i
on_verb i me_ = Messages.action i
on_verb i notice_ = Messages.notice i
on_verb i nick_ = Messages.change_nick i
on_verb i oper_ = Messages.oper i
on_verb i away_ = Messages.away i
on_verb i back_ = Messages.back i
on_verb i topic_ = Operators.topic i
on_verb i kick_ = Operators.kick i
on_verb i ban_ = Operators.ban i
on_verb i unban_ = Operators.unban i
on_verb i kickban_ = Operators.kickban i
on_verb i op = Operators.member_mode i (lit "/op") (lit "+") (lit "o")
on_verb i deop = Operators.member_mode i (lit "/deop") (lit "-") (lit "o")
on_verb i voice = Operators.member_mode i (lit "/voice") (lit "+") (lit "v")
on_verb i devoice = Operators.member_mode i (lit "/devoice") (lit "-") (lit "v")
on_verb i halfop = Operators.member_mode i (lit "/halfop") (lit "+") (lit "h")
on_verb i dehalfop = Operators.member_mode i (lit "/dehalfop") (lit "-") (lit "h")
on_verb i mode_ = Operators.mode i
on_verb i invite_ = Operators.invite i
on_verb i whois_ = Queries.whois i
on_verb i who_ = Queries.who i
on_verb i names_ = Queries.names i
on_verb i list_ = Queries.query_status i (lit "LIST") (first i)
on_verb i whowas_ = Queries.whowas i
on_verb i stats = Queries.query_status i (lit "STATS") i.rest
on_verb i links = Queries.query_status i (lit "LINKS") (first i)
on_verb i time_ = Queries.query i (lit "TIME") (first i)
on_verb i version = Queries.query i (lit "VERSION") (first i)
on_verb i info = Queries.query_status i (lit "INFO") (first i)
on_verb i motd = Queries.query_status i (lit "MOTD") (first i)
on_verb i lusers = Queries.query i (lit "LUSERS") []
on_verb i map_ = Queries.query_status i (lit "MAP") []
on_verb i ping_ = Messages.ping i
on_verb i ctcp_ = Messages.ctcp i
on_verb i ignore_ = Messages.ignore i
on_verb i unignore_ = Messages.unignore i
on_verb i raw_ = Messages.raw_line i
on_verb i clear = clear_window i
on_verb i help = help_lines i

-- `cmd`, `rest` and `args`
unfoldable pub input : Env → Refs → Text → Text → Text → Input
input env refs net_id chan text = elim (break_at b' ' text) [
  | none ↦ record {
    net_id = net_id;
    chan = chan;
    me = get_or_else (lookup net_id refs.my_nick) [];
    refs = refs;
    env = env;
    cmd = lower text;
    rest = [];
    args = [];
  }
  | some (cmd, rest) ↦ record {
    net_id = net_id;
    chan = chan;
    me = get_or_else (lookup net_id refs.my_nick) [];
    refs = refs;
    env = env;
    cmd = lower cmd;
    rest = trim rest;
    args = words (trim rest);
  }
]

-- With a network selected; without one only "/ignore" and "/unignore" do anything.
unfoldable pub handle_send : Env → Refs → Text → Text → Text → List Out
unfolding labels
handle_send env refs net_id chan text =
    let i = input env refs net_id chan text in
    if starts_with text (lit "/")
    then elim (lookup i.cmd labels) [
      | some verb ↦ on_verb i verb
      | none ↦ sys i (lit "Unknown command: " ++ (i.cmd ++ lit "  (type /help)"))
    ]
    else Messages.say i text
