-- ===== src/Command/Queries.antt =====
-- The commands that ask the server, in `handleSend` (frontend/app.jsx).
use korechat.Common.{◌++◌, ◌∷◌, [], Text, lit, is_empty, or_text, List, if◌then◌else◌}
use korechat.Chat.{set_active_chan}
use korechat.Client.{Out, dispatch, ensure_chan}
use korechat.Command.{
  Input, is_ready, when_ready, when_first, when_target, first, channel_or, raw, show_status,
}

-- `x ? `${verb} ${x}` : verb`
abbrev with_arg : Text → Text → Text
with_arg verb x = if is_empty x then verb else verb ++ (lit " " ++ x)

unfoldable pub whois : Input → List Out
whois i = when_ready i (
    when_first i (lit "Usage: /whois <nick>") (
      raw i (lit "WHOIS " ++ first i)
      ∷ (ensure_chan i.refs i.net_id (first i)
          ++ dispatch (set_active_chan i.net_id (first i)) ∷ [])))

unfoldable pub who : Input → List Out
who i =
    let target = or_text (first i) (channel_or i []) in
    when_ready i
      (when_target i target (lit "Usage: /who <#channel|nick>") (raw i (lit "WHO " ++ target) ∷ []))

unfoldable pub names : Input → List Out
names i =
    let target = or_text (first i) (channel_or i []) in
    if is_ready i then (if is_empty target then [] else raw i (lit "NAMES " ++ target) ∷ []) else []

unfoldable pub whowas : Input → List Out
whowas i =
    when_ready i (
      when_first i (lit "Usage: /whowas <nick>") (raw i (lit "WHOWAS " ++ first i) ∷ show_status i))

-- "/list", "/links", "/info", "/motd" with their first word, "/stats" with all, "/map" with none.
unfoldable pub query_status : Input → Text → Text → List Out
query_status i verb x = when_ready i (raw i (with_arg verb x) ∷ show_status i)

-- "/time", "/version" and "/lusers"
unfoldable pub query : Input → Text → Text → List Out
query i verb x = when_ready i (raw i (with_arg verb x) ∷ [])
