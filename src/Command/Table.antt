-- ===== src/Command/Table.antt =====
-- `CMDS` of frontend/app.jsx: the commands that "/help" lists.
use korechat.Common.{◌∷◌, [], Text, lit, Dict}

unfoldable pub commands : Dict Text
commands =
    (lit "/join", lit "Join a channel:  /join #channel")
    ∷ (lit "/part", lit "Leave current channel:  /part [reason]")
    ∷ (lit "/close", lit "Close current channel/query tab")
    ∷ (lit "/msg", lit "Private message:  /msg <nick> <text>")
    ∷ (lit "/query", lit "Open DM with nick:  /query <nick>")
    ∷ (lit "/me", lit "Action message:  /me <text>")
    ∷ (lit "/nick", lit "Change nickname:  /nick <newnick>")
    ∷ (lit "/topic", lit "Get/set topic:  /topic [new topic]")
    ∷ (lit "/kick", lit "Kick user:  /kick <nick> [reason]")
    ∷ (lit "/kickban", lit "Kick and ban:  /kickban <nick> [reason]")
    ∷ (lit "/ban", lit "Ban mask:  /ban <nick!user@host>")
    ∷ (lit "/unban", lit "Unban mask:  /unban <mask>")
    ∷ (lit "/op", lit "Give op (+o):  /op <nick> [nick2 ...]")
    ∷ (lit "/deop", lit "Remove op (-o):  /deop <nick> [nick2 ...]")
    ∷ (lit "/voice", lit "Give voice (+v):  /voice <nick> [nick2 ...]")
    ∷ (lit "/devoice", lit "Remove voice (-v):  /devoice <nick> [nick2 ...]")
    ∷ (lit "/halfop", lit "Give half-op (+h):  /halfop <nick> [nick2 ...]")
    ∷ (lit "/dehalfop", lit "Remove half-op (-h):  /dehalfop <nick> [nick2 ...]")
    ∷ (lit "/mode", lit "Get/set modes:  /mode [target] [flags]")
    ∷ (lit "/invite", lit "Invite user:  /invite <nick> [#channel]")
    ∷ (lit "/whois", lit "User info:  /whois <nick>")
    ∷ (lit "/whowas", lit "Info on departed nick:  /whowas <nick>")
    ∷ (lit "/who", lit "Channel member details:  /who [#channel]")
    ∷ (lit "/names", lit "Refresh member list")
    ∷ (lit "/list", lit "List channels:  /list [pattern]")
    ∷ (lit "/stats", lit "Server stats:  /stats [query] [server]")
    ∷ (lit "/links", lit "List servers in network:  /links [server]")
    ∷ (lit "/time", lit "Server time:  /time [server]")
    ∷ (lit "/version", lit "Server version:  /version [server]")
    ∷ (lit "/info", lit "Server info:  /info [server]")
    ∷ (lit "/motd", lit "Show MOTD:  /motd [server]")
    ∷ (lit "/lusers", lit "Server user counts:  /lusers")
    ∷ (lit "/map", lit "Network map:  /map")
    ∷ (lit "/ping", lit "Ping nick or server:  /ping <nick|server>")
    ∷ (lit "/oper", lit "IRC operator login:  /oper <n> <password>")
    ∷ (lit "/away", lit "Set away:  /away [message]")
    ∷ (lit "/back", lit "Clear away status")
    ∷ (lit "/notice", lit "Send NOTICE:  /notice <nick|#chan> <text>")
    ∷ (lit "/ctcp", lit "Send CTCP:  /ctcp <nick> <command> [args]")
    ∷ (lit "/ignore", lit "Ignore nick (client-side):  /ignore <nick>")
    ∷ (lit "/unignore", lit "Remove ignore:  /unignore <nick>")
    ∷ (lit "/raw", lit "Send raw IRC:  /raw <command>")
    ∷ (lit "/quote", lit "Send raw IRC:  /quote <command>")
    ∷ (lit "/connect", lit "Connect to active network")
    ∷ (lit "/disconnect", lit "Disconnect from active network")
    ∷ (lit "/reconnect", lit "Reconnect to active network")
    ∷ (lit "/clear", lit "Clear message view")
    ∷ (lit "/help", lit "Show commands:  /help [command]")
    ∷ []
