-- ===== src/Legacy/Privmsg.antt =====
-- PRIVMSG and NOTICE in `handleLine` of KoreChat.jsx, with the control messages of the bouncer.
use korechat.Common.{
  ◌++◌, ◌∷◌, [], Text, lit, text_eq, starts_with, is_empty, or_text, lookup, put, has_key, keys,
  keep, includes, List, length, drop, Bool, true, false, not, ◌&&◌, ◌||◌, Option, none, some,
  get_or_else, if◌then◌else◌, trim, words,
}
use korechat.Chat.{message, net_prefix}
use korechat.Chat.Keys.{chan_of_key}
use korechat.Client.{arg}
use korechat.Legacy.{Message, set_connected, set_nick, join_channel, set_replaying}
use korechat.Legacy.Replay.{Step, emit, add_msg, flush}
use korechat.Legacy.Context.{Ctx, set_status, sys, with_props}

-- `s.slice(p.length)`
abbrev behind : Text → Text → Text
behind p s = drop (length p) s

-- `prefix === name || fromNick === name`
abbrev pub is_from : Ctx → Text → Bool
is_from c name = is_some c.msg.prefix || text_eq c.from_nick name
  where
    is_some : Option Text → Bool
    is_some none = false
    is_some (some p) = text_eq p name

-- The first channel of the network, or "status".
abbrev status_channel : Ctx → Text
status_channel c = first (keep (λ k. starts_with k (net_prefix c.net_id)) (keys c.state.channels))
  where
    first : List Text → Text
    first [] = lit "status"
    first (k ∷ ks) = chan_of_key k

-- A replay begins with the first status.
unfoldable pub start_replay : Ctx → Step
start_replay c bufs = if has_key c.net_id bufs then (bufs, []) else (
  put c.net_id (record { messages = []; seen_ids = [] }) bufs,
  set_replaying c.net_id true ∷ [],
)

abbrev pub joins : Ctx → List Text → List Step
joins c [] = []
joins c (chan ∷ chans) = emit (join_channel c.net_id chan) ∷ joins c chans

unfoldable pub bnc_status : Ctx → Text → List Step
unfolding start_replay with_props
bnc_status c text =
    let status = trim (behind (lit "status:") text) in
    (emit (set_connected c.net_id (text_eq status (lit "connected")))
      ∷ set_status c ((lit "status", status) ∷ [])
      ∷ start_replay c
      ∷ [])

unfoldable pub bnc_channels : Ctx → Text → List Step
bnc_channels c text = (joins c (words (trim (behind (lit "channels:") text))))

unfoldable pub replay_done : Ctx → Text → List Step
unfolding flush
replay_done c text =
    let nick =
      if starts_with text (lit "replay-done nick:")
      then trim (behind (lit "replay-done nick:") text)
      else [] in
    ((if is_empty nick then [] else emit (set_nick c.net_id nick) ∷ [])
      ++ flush c.millis c.net_id ∷ [])

unfoldable pub bnc_control : Ctx → Text → List Step
bnc_control c text =
    if starts_with text (lit "status:")
    then bnc_status c text
    else if starts_with text (lit "channels:")
    then bnc_channels c text
    else if starts_with text (lit "replay-done")
    then replay_done c text
    else []

-- `prefix && !prefix.includes("!")`
abbrev is_server : Option Text → Bool
is_server none = false
is_server (some p) = not (is_empty p) && not (includes p (lit "!"))

abbrev received : Ctx → Text → Message
received c text = record {
  kind = message;
  nick = some c.from_nick;
  text = text;
  time = c.time;
  tags = c.msg.tags;
  id = or_text (get_or_else (lookup (lit "msgid") c.msg.tags) []) c.random_id;
  mine = false;
}

-- A message of a person.
abbrev pub receive : Ctx → Text → Text → List Step
receive c chan text =
    emit (join_channel c.net_id chan) ∷ add_msg c.net_id chan (received c text) ∷ []

-- A status notice.
abbrev pub status_note : Ctx → Text → List Step
status_note c text =
    let chan = status_channel c in emit (join_channel c.net_id chan) ∷ sys c chan text ∷ []

-- `target && !target.startsWith("#")`
abbrev is_dm : Ctx → Bool
is_dm c =
    let target = arg c.msg.params 0 in not (is_empty target) && not (starts_with target (lit "#"))

-- `isDM ? fromNick : target`
abbrev pub window : Ctx → Text
window c = if is_dm c then c.from_nick else arg c.msg.params 0

abbrev pub is_server_notice : Ctx → Bool
is_server_notice c = text_eq c.msg.command (lit "NOTICE") && (is_dm c && is_server c.msg.prefix)

abbrev pub is_echo : Ctx → Bool
is_echo c = text_eq c.from_nick c.nick && text_eq c.msg.command (lit "PRIVMSG")

unfoldable pub privmsg : Ctx → List Step
unfolding add_msg
privmsg c =
    let text = arg c.msg.params 1 in
    if is_empty (window c)
    then []
    else if is_from c (lit "*korechat*")
    then status_note c text
    else if is_from c (lit "*bnc*")
    then bnc_control c text
    else if is_server_notice c
    then []
    else if is_echo c
    then []
    else receive c (window c) text
