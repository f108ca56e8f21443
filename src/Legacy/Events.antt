-- ===== src/Legacy/Events.antt =====
-- The cases of `handleLine` of KoreChat.jsx but PRIVMSG and NOTICE.
use korechat.Common.{
  ◌++◌, ◌∷◌, [], Text, lit, text_eq, starts_with, is_empty, Dict, lookup, put, has_key, List, drop,
  keep, Bool, false, true, not, Option, none, some, get_elem?, if◌then◌else◌, trim,
}
use korechat.Chat.{net_prefix}
use korechat.Chat.Keys.{chan_of_key}
use korechat.Irc.{split_on}
use korechat.Client.{arg, shown}
use korechat.Line.Names.{is_prefix_char}
use korechat.Legacy.{
  Channel, set_connected, set_nick, set_active_net, set_active_chan, add_cap, join_channel,
  part_channel, set_topic, set_members, remove_member,
}
use korechat.Legacy.Replay.{Step, emit}
use korechat.Legacy.Context.{Ctx, set_status, sys, with_props}

unfoldable pub welcome : Ctx → List Step
unfolding with_props
welcome c =
    (emit (set_connected c.net_id true)
      ∷ emit (set_nick c.net_id (arg c.msg.params 0))
      ∷ set_status c ((lit "status", lit "connected") ∷ [])
      ∷ [])

-- `params[1] === "ACK"`
abbrev pub is_ack : Option Text → Bool
is_ack none = false
is_ack (some t) = text_eq t (lit "ACK")

unfoldable pub cap : Ctx → List Step
cap c =
    if is_ack (get_elem? c.msg.params 1)
    then emit (add_cap c.net_id (keep (λ t. not (is_empty t)) (split_on b' ' (arg c.msg.params 2))))
      ∷ []
    else []

-- `s.replace(/^:/, "")`
abbrev pub strip_colon : Text → Text
strip_colon s = if starts_with s (lit ":") then drop 1 s else s

-- `!x` for a text that may be missing
abbrev is_missing : Option Text → Bool
is_missing none = true
is_missing (some t) = is_empty t

-- The user's own JOIN outside of a replay.
abbrev pub select : Ctx → Text → Step
select c chan bufs = if has_key c.net_id bufs then (bufs, []) else (
  bufs,
  set_active_chan c.net_id chan
      ∷ (if is_missing c.state.active_network then set_active_net c.net_id ∷ [] else []),
)

unfoldable pub join : Ctx → List Step
join c =
    let chan = strip_colon (arg c.msg.params 0) in
    if is_empty chan
    then []
    else if text_eq c.from_nick c.nick
    then (emit (join_channel c.net_id chan)
        ∷ select c chan
        ∷ sys c chan (lit "You joined " ++ chan)
        ∷ [])
    else (emit (join_channel c.net_id chan)
        ∷ emit (set_members c.net_id chan ((c.from_nick, []) ∷ []))
        ∷ sys c chan (lit "→ " ++ (c.from_nick ++ lit " joined"))
        ∷ [])

-- A missing parameter is the text "undefined", as in a key or a template.
unfoldable pub part : Ctx → List Step
part c =
    let chan = shown c.msg.params 0 in
    let reason = arg c.msg.params 1 in
    if text_eq c.from_nick c.nick
    then emit (part_channel c.net_id chan) ∷ []
    else (emit (remove_member c.net_id chan c.from_nick)
        ∷ sys c chan (
            lit "← "
            ++ (c.from_nick
                ++ (lit " left" ++ (if is_empty reason then [] else lit ": " ++ reason))))
        ∷ [])

-- One entry of a reply to NAMES, with at most one prefix character.
unfoldable pub add_name : Text → Dict Text → Dict Text
add_name [] members = members
add_name (p ∷ m) members =
    if is_prefix_char p
    then (if is_empty m then members else put m (p ∷ []) members)
    else put (p ∷ m) [] members

unfoldable pub add_names : List Text → Dict Text → Dict Text
add_names [] members = members
add_names (m ∷ ms) members = add_names ms (add_name m members)

unfoldable pub names : Ctx → List Step
unfolding add_names add_name
names c =
    let chan = arg c.msg.params 2 in
    if is_empty chan
    then []
    else emit (set_members c.net_id chan (add_names (split_on b' ' (trim (arg c.msg.params 3))) []))
      ∷ []

unfoldable pub topic_reply : Ctx → List Step
topic_reply c = emit (set_topic c.net_id (shown c.msg.params 1) (arg c.msg.params 2)) ∷ []

unfoldable pub topic : Ctx → List Step
topic c =
    let chan = shown c.msg.params 0 in
    (emit (set_topic c.net_id chan (arg c.msg.params 1))
      ∷ sys c chan (c.from_nick ++ (lit " changed topic: " ++ arg c.msg.params 1))
      ∷ [])

-- The two loops over `Object.keys(channels)`: `act` on the channel and the sender's prefix, in each
-- channel of the network that has the sender.
unfoldable pub each_channel_of : Ctx → (Text → Text → List Step) → Dict Channel → List Step
each_channel_of c act [] = []
each_channel_of c act ((k, ch) ∷ chans) =
    (if starts_with k (net_prefix c.net_id)
      then elim (lookup c.from_nick ch.members) [ none ↦ [] | some pfx ↦ act (chan_of_key k) pfx ]
      else [])
    ++ each_channel_of c act chans

-- What NICK and QUIT do in one channel.
abbrev pub rename_one : Ctx → Text → Text → List Step
rename_one c chan pfx =
    let new_nick = shown c.msg.params 0 in
    emit (remove_member c.net_id chan c.from_nick)
    ∷ emit (set_members c.net_id chan ((new_nick, pfx) ∷ []))
    ∷ sys c chan (c.from_nick ++ (lit " is now known as " ++ new_nick))
    ∷ []

abbrev pub quit_one : Ctx → Text → Text → List Step
quit_one c chan pfx =
    emit (remove_member c.net_id chan c.from_nick)
    ∷ sys c chan (lit "✕ " ++ (c.from_nick ++ (lit " quit: " ++ arg c.msg.params 0)))
    ∷ []

abbrev pub own_nick : Ctx → List Step
own_nick c =
    if text_eq c.from_nick c.nick then emit (set_nick c.net_id (arg c.msg.params 0)) ∷ [] else []

unfoldable pub nick_change : Ctx → List Step
unfolding each_channel_of
nick_change c = own_nick c ++ each_channel_of c (rename_one c) c.state.channels

unfoldable pub quit : Ctx → List Step
unfolding each_channel_of
quit c = each_channel_of c (quit_one c) c.state.channels

unfoldable pub kick : Ctx → List Step
kick c =
    let chan = shown c.msg.params 0 in
    let kicked = shown c.msg.params 1 in
    (emit (remove_member c.net_id chan kicked)
      ∷ sys c chan
          (kicked ++ (lit " was kicked by " ++ (c.from_nick ++ (lit ": " ++ arg c.msg.params 2))))
      ∷ [])

unfoldable pub error : Ctx → List Step
unfolding with_props
error c =
    set_status c ((lit "status", lit "error") ∷ (lit "status_msg", arg c.msg.params 0) ∷ []) ∷ []
