-- ===== src/Command/Messages.antt =====
-- Plain messages, and the commands on windows, messages and the user's own state, in `handleSend`
-- (frontend/app.jsx).
use korechat.Common.{
  ◌++◌, ◌∷◌, [], Text, lit, text_eq, starts_with, is_empty, or_text, List, length, drop, true,
  false, not, ◌||◌, ltb, get_or_else, get_elem?, if◌then◌else◌, join,
}
use korechat.Chat.{set_active_chan, chan_part, status_chan}
use korechat.Irc.{upper}
use korechat.Client.{Out, dispatch, load_history, ensure_chan, set_ignored}
use korechat.Command.{
  Input, is_ready, sys, when_ready, when_first, when_target, first, channel_or, raw, own_message,
}

-- A text that is no command.
unfoldable pub say : Input → Text → List Out
say i text =
    if not (is_ready i)
    then sys i (lit "Not connected. Type /connect to connect.")
    else if is_empty i.chan || text_eq i.chan status_chan
    then sys i (lit "Join a channel first (/join #channel).")
    else raw i (lit "PRIVMSG " ++ (i.chan ++ (lit " :" ++ text))) ∷ own_message i i.chan text ∷ []

-- `args[0].startsWith("#") ? args[0] : "#" + args[0]`
abbrev with_hash : Text → Text
with_hash t = if starts_with t (lit "#") then t else lit "#" ++ t

unfoldable pub join_channel : Input → List Out
join_channel i =
    if not (is_ready i)
    then sys i (lit "Not connected. Type /connect first.")
    else when_first i (lit "Usage: /join #channel")
        (raw i (lit "JOIN " ++ with_hash (first i)) ∷ [])

unfoldable pub part_channel : Input → List Out
part_channel i =
    let target = channel_or i (first i) in
    when_ready i (
      when_target i target (lit "Usage: /part [reason]")
        (raw i (lit "PART " ++ (target ++ (lit " :" ++ or_text i.rest (lit "Leaving")))) ∷ []))

unfoldable pub close_window : Input → List Out
close_window i = if is_empty i.chan then [] else dispatch (chan_part i.net_id i.chan) ∷ []

unfoldable pub private_message : Input → List Out
private_message i = when_ready i (elim i.args [
  | [] ↦ sys i (lit "Usage: /msg <nick> [message]")
  | tgt ∷ mp ↦
      ensure_chan i.refs i.net_id tgt
      ++ (dispatch (set_active_chan i.net_id tgt) ∷ load_history 0 i.net_id tgt ∷ (elim mp [
        | [] ↦ []
        | w ∷ ws ↦
            raw i (lit "PRIVMSG " ++ (tgt ++ (lit " :" ++ join (lit " ") (w ∷ ws))))
            ∷ own_message i tgt (join (lit " ") (w ∷ ws))
            ∷ []
      ]))
])

unfoldable pub action : Input → List Out
action i = when_ready i (
    if is_empty i.chan || text_eq i.chan status_chan
    then sys i (lit "Join a channel first.")
    else if is_empty i.rest
    then sys i (lit "Usage: /me <action>")
    else raw i
        (lit "PRIVMSG " ++ (i.chan ++ (lit " :" ++ ((1 ∷ lit "ACTION ") ++ (i.rest ++ (1 ∷ []))))))
      ∷ own_message i i.chan (lit "* " ++ (i.me ++ (lit " " ++ i.rest)))
      ∷ [])

unfoldable pub notice : Input → List Out
notice i =
    if not (is_ready i) || ltb (length i.args) 2
    then sys i (lit "Usage: /notice <nick|#chan> <text>")
    else raw i (lit "NOTICE " ++ (first i ++ (lit " :" ++ join (lit " ") (drop 1 i.args)))) ∷ []

unfoldable pub change_nick : Input → List Out
change_nick i =
    when_ready i (when_first i (lit "Usage: /nick <newnick>") (raw i (lit "NICK " ++ first i) ∷ []))

unfoldable pub oper : Input → List Out
oper i = when_ready i (
    if ltb (length i.args) 2
    then sys i (lit "Usage: /oper <name> <password>")
    else raw i (lit "OPER " ++ (first i ++ (lit " " ++ join (lit " ") (drop 1 i.args))))
      ∷ sys i (lit "→ OPER sent for " ++ first i))

unfoldable pub away : Input → List Out
away i = when_ready i (raw i (if is_empty i.rest then lit "AWAY" else lit "AWAY :" ++ i.rest) ∷ [])

unfoldable pub back : Input → List Out
back i = if is_ready i then raw i (lit "AWAY") ∷ [] else []

unfoldable pub ctcp : Input → List Out
ctcp i =
    let name = upper (get_or_else (get_elem? i.args 1) []) in
    let more = join (lit " ") (drop 2 i.args) in
    when_ready i (
      if ltb (length i.args) 2
      then sys i (lit "Usage: /ctcp <nick> <command> [args]")
      else raw i (
          lit "PRIVMSG "
          ++ (first i
              ++ (lit " :"
                  ++ ((1 ∷ name)
                      ++ ((if is_empty more then [] else lit " " ++ more) ++ (1 ∷ []))))))
        ∷ sys i (lit "→ CTCP " ++ (name ++ (lit " to " ++ first i))))

unfoldable pub ping : Input → List Out
ping i = when_ready i (
    when_first i (lit "Usage: /ping <nick|server>")
      (raw i (lit "PING " ++ first i) ∷ sys i (lit "→ PING " ++ first i)))

unfoldable pub ignore : Input → List Out
ignore i =
    when_first i (lit "Usage: /ignore <nick>")
      (set_ignored (first i) true ∷ sys i (lit "Ignoring " ++ first i))

unfoldable pub unignore : Input → List Out
unignore i =
    when_first i (lit "Usage: /unignore <nick>")
      (set_ignored (first i) false ∷ sys i (lit "No longer ignoring " ++ first i))

unfoldable pub raw_line : Input → List Out
raw_line i = when_ready i (
    if is_empty i.rest
    then sys i (lit "Usage: /raw <IRC command>")
    else raw i i.rest ∷ sys i (lit "→ " ++ i.rest))
