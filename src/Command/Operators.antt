-- ===== src/Command/Operators.antt =====
-- The commands of channel operators in `handleSend` (frontend/app.jsx).
use korechat.Common.{
  ℕ, zero, suc, ◌++◌, ◌∷◌, [], Text, lit, text_eq, is_empty, or_text, List, length, drop, not, ◌&&◌,
  ◌||◌, get_or_else, get_elem?, if◌then◌else◌, join,
}
use korechat.Chat.{status_chan}
use korechat.Client.{Out}
use korechat.Command.{
  Input, is_ready, sys, when_ready, when_first, when_target, first, channel_or, raw,
}

-- `s.repeat(n)`
abbrev pub repeat : Text → ℕ → Text
repeat s zero = []
repeat s (suc n) = s ++ repeat s n

-- "/op", "/deop", "/voice", "/devoice", "/halfop" and "/dehalfop", by their name, sign and letter.
unfoldable pub member_mode : Input → Text → Text → Text → List Out
member_mode i name sign letter =
    let target = channel_or i [] in
    when_ready i (
      when_first i (lit "Usage: " ++ (name ++ lit " <nick> [nick2 ...]")) (
        when_target i target (name ++ lit " must be used in a channel.") (
          raw i (
            lit "MODE "
            ++ (target
                ++ (lit " "
                    ++ (sign
                        ++ (repeat letter (length i.args) ++ (lit " " ++ join (lit " ") i.args))))))
          ∷ [])))

-- `KICK ${target} ${args[0]} :${args.slice(1).join(" ") || "Kicked"}`
abbrev kick_line : Input → Text → Text
kick_line i target =
    lit "KICK "
    ++ (target
        ++ (lit " "
            ++ (first i ++ (lit " :" ++ or_text (join (lit " ") (drop 1 i.args)) (lit "Kicked")))))

unfoldable pub kick : Input → List Out
kick i =
    let target = channel_or i [] in
    when_ready i (
      when_first i (lit "Usage: /kick <nick> [reason]") (
        when_target i target (lit "/kick must be used in a channel.")
          (raw i (kick_line i target) ∷ [])))

unfoldable pub ban : Input → List Out
ban i =
    let target = channel_or i [] in
    if not (is_ready i) || is_empty (first i)
    then sys i (lit "Usage: /ban <mask>")
    else when_target i target (lit "/ban must be used in a channel.")
        (raw i (lit "MODE " ++ (target ++ (lit " +b " ++ first i))) ∷ [])

unfoldable pub unban : Input → List Out
unban i =
    let target = channel_or i [] in
    if not (is_ready i) || is_empty (first i)
    then sys i (lit "Usage: /unban <mask>")
    else if is_empty target
    then []
    else raw i (lit "MODE " ++ (target ++ (lit " -b " ++ first i))) ∷ []

unfoldable pub kickban : Input → List Out
kickban i =
    let target = channel_or i [] in
    when_ready i (
      when_first i (lit "Usage: /kickban <nick> [reason]") (
        when_target i target (lit "/kickban must be used in a channel.") (
          raw i (lit "MODE " ++ (target ++ (lit " +b " ++ (first i ++ lit "!*@*"))))
          ∷ raw i (kick_line i target)
          ∷ [])))

unfoldable pub topic : Input → List Out
topic i =
    let target = channel_or i (first i) in
    when_ready i (
      when_target i target (lit "Usage: /topic [text]") (
        raw i (
          if not (is_empty i.rest) && not (text_eq i.chan status_chan)
          then lit "TOPIC " ++ (target ++ (lit " :" ++ i.rest))
          else lit "TOPIC " ++ target)
        ∷ []))

unfoldable pub mode : Input → List Out
mode i =
    when_ready i
      (raw i (lit "MODE " ++ (if is_empty i.rest then channel_or i i.me else i.rest)) ∷ [])

-- `args[1] || (chan !== STATUS_CHAN ? chan : "")`
unfoldable pub invite : Input → List Out
invite i =
    let target =
      or_text (get_or_else (get_elem? i.args 1) [])
        (if text_eq i.chan status_chan then [] else i.chan) in
    if not (is_ready i) || is_empty (first i)
    then sys i (lit "Usage: /invite <nick> [#channel]")
    else when_target i target (lit "Usage: /invite <nick> <#channel>")
        (raw i (lit "INVITE " ++ (first i ++ (lit " " ++ target))) ∷ [])
