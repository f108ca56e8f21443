-- ===== src/Line/Handle.antt =====
-- The `switch` of `handleLine` (frontend/app.jsx).
use korechat.Common.{
  ◌++◌, ◌∷◌, [], Text, lit, Dict, lookup, set_has, List, none, some, if◌then◌else◌, is_numeral,
}
use korechat.Chat.{status_chan}
use korechat.Client.{Env, Refs, Out, arg, shown}
use korechat.Line.{Ctx, context, sys, last_arg, last_shown}
use korechat.Line.Members.{nick_change, join, part, kick, quit, topic, topic_reply}
use korechat.Line.Names.{names_reply, end_of_names}
use korechat.Line.Modes.{mode}
use korechat.Line.Replies.{
  welcome, status_note, motd_start, motd_line, motd_end, whois_user, whois_line, idle_text,
  whois_end, presence, unknown, error, numeric,
}
use korechat.Line.Privmsg.{privmsg, batch}

-- The labels of the `switch`; labels that share their statements share a constructor.
pub data Verb : Type 0 where
  rpl_welcome rpl_motd_start rpl_motd_line rpl_motd_end bad_nick nick_ join_ part_ kick_ quit_ :
      Verb
  rpl_names rpl_names_end rpl_topic rpl_no_topic topic_ privmsg_ batch_ : Verb
  whois_user_ whois_channels whois_server whois_account whois_oper whois_special whois_secure : Verb
  whois_idle whois_end_ list_entry list_end mode_ channel_mode invite away now_oper oper_failed :
      Verb
  mon_online mon_offline unknown_ error_ ignored : Verb

unfoldable pub labels : Dict Verb
labels =
    (lit "001", rpl_welcome)
    ∷ (lit "375", rpl_motd_start)
    ∷ (lit "372", rpl_motd_line)
    ∷ (lit "376", rpl_motd_end)
    ∷ (lit "432", bad_nick)
    ∷ (lit "433", bad_nick)
    ∷ (lit "NICK", nick_)
    ∷ (lit "JOIN", join_)
    ∷ (lit "PART", part_)
    ∷ (lit "KICK", kick_)
    ∷ (lit "QUIT", quit_)
    ∷ (lit "353", rpl_names)
    ∷ (lit "366", rpl_names_end)
    ∷ (lit "332", rpl_topic)
    ∷ (lit "331", rpl_no_topic)
    ∷ (lit "TOPIC", topic_)
    ∷ (lit "PRIVMSG", privmsg_)
    ∷ (lit "NOTICE", privmsg_)
    ∷ (lit "BATCH", batch_)
    ∷ (lit "311", whois_user_)
    ∷ (lit "319", whois_channels)
    ∷ (lit "312", whois_server)
    ∷ (lit "330", whois_account)
    ∷ (lit "313", whois_oper)
    ∷ (lit "320", whois_special)
    ∷ (lit "671", whois_secure)
    ∷ (lit "307", ignored)
    ∷ (lit "317", whois_idle)
    ∷ (lit "318", whois_end_)
    ∷ (lit "321", ignored)
    ∷ (lit "322", list_entry)
    ∷ (lit "323", list_end)
    ∷ (lit "MODE", mode_)
    ∷ (lit "324", channel_mode)
    ∷ (lit "INVITE", invite)
    ∷ (lit "305", away)
    ∷ (lit "306", away)
    ∷ (lit "381", now_oper)
    ∷ (lit "491", oper_failed)
    ∷ (lit "464", oper_failed)
    ∷ (lit "730", mon_online)
    ∷ (lit "731", mon_offline)
    ∷ (lit "732", ignored)
    ∷ (lit "733", ignored)
    ∷ (lit "421", unknown_)
    ∷ (lit "ERROR", error_)
    ∷ []

-- The numerals that the default case suppresses.
unfoldable pub suppressed : List Text
suppressed =
    lit "333"
    ∷ lit "005"
    ∷ lit "004"
    ∷ lit "002"
    ∷ lit "003"
    ∷ lit "001"
    ∷ lit "730"
    ∷ lit "731"
    ∷ lit "732"
    ∷ lit "733"
    ∷ []

-- `s || other` for a channel name
abbrev or_chan : Text → Text → Text
or_chan [] t = t
or_chan (c ∷ s) t = c ∷ s

unfoldable pub on_verb : Ctx → Refs → Verb → Refs × List Out
on_verb c refs rpl_welcome = (refs, welcome c refs)
on_verb c refs rpl_motd_start = (motd_start c refs, [])
on_verb c refs rpl_motd_line = (motd_line c refs, [])
on_verb c refs rpl_motd_end = motd_end c refs
on_verb c refs bad_nick =
    (refs, status_note c refs (lit "⚠ " ++ (last_shown c ++ (lit ": " ++ arg c.msg.params 1))))
on_verb c refs nick_ = (refs, nick_change c refs)
on_verb c refs join_ = (refs, join c refs)
on_verb c refs part_ = (refs, part c refs)
on_verb c refs kick_ = (refs, kick c refs)
on_verb c refs quit_ = (refs, quit c refs)
on_verb c refs rpl_names = (names_reply c refs, [])
on_verb c refs rpl_names_end = end_of_names c refs
on_verb c refs rpl_topic = (refs, topic_reply c (arg c.msg.params 2))
on_verb c refs rpl_no_topic = (refs, topic_reply c [])
on_verb c refs topic_ = (refs, topic c refs)
on_verb c refs privmsg_ = privmsg c refs
on_verb c refs batch_ = batch c refs
on_verb c refs whois_user_ = (whois_user c refs, [])
on_verb c refs whois_channels = (whois_line c refs (lit "  Channels: " ++ arg c.msg.params 2), [])
on_verb c refs whois_server = (
  whois_line c refs (
      lit "  Server: " ++ (shown c.msg.params 2 ++ (lit "  (" ++ (arg c.msg.params 3 ++ lit ")")))),
  [],
)
on_verb c refs whois_account = (whois_line c refs (lit "  Account: " ++ shown c.msg.params 2), [])
on_verb c refs whois_oper = (whois_line c refs (lit "  IRC Operator"), [])
on_verb c refs whois_special =
    (whois_line c refs (lit "  " ++ or_chan (last_arg c) (lit "Network Administrator")), [])
on_verb c refs whois_secure = (whois_line c refs (lit "  Secure connection"), [])
on_verb c refs whois_idle = (whois_line c refs (idle_text (arg c.msg.params 2)), [])
on_verb c refs whois_end_ = whois_end c refs
on_verb c refs list_entry = (
  refs,
  status_note c refs (
      lit "  "
      ++ (shown c.msg.params 1
          ++ (lit "  (" ++ (shown c.msg.params 2 ++ (lit " users)  " ++ arg c.msg.params 3))))),
)
on_verb c refs list_end = (refs, sys c status_chan (lit "End of /LIST") [] ∷ [])
on_verb c refs mode_ = (refs, mode c refs)
on_verb c refs channel_mode = (
  refs,
  sys c (or_chan (arg c.msg.params 1) status_chan)
        (lit "Mode for " ++ (shown c.msg.params 1 ++ (lit ": " ++ arg c.msg.params 2))) []
      ∷ [],
)
on_verb c refs invite =
    (refs, status_note c refs (c.from ++ (lit " invited you to " ++ shown c.msg.params 1)))
on_verb c refs away = (refs, status_note c refs (last_arg c))
on_verb c refs now_oper = (refs, status_note c refs (lit "★ " ++ last_shown c))
on_verb c refs oper_failed = (refs, status_note c refs (lit "⚠ OPER failed: " ++ last_shown c))
on_verb c refs mon_online = (refs, presence c (lit "online"))
on_verb c refs mon_offline = (refs, presence c (lit "offline"))
on_verb c refs unknown_ = unknown c refs
on_verb c refs error_ = (refs, error c refs)
on_verb c refs ignored = (refs, [])

unfoldable pub handle_line : Env → Refs → Text → Text → Refs × List Out
unfolding labels suppressed
handle_line env refs net_id raw =
    let c = context env refs net_id raw in
    elim (lookup c.msg.command labels) [
      | some verb ↦ on_verb c refs verb
      | none ↦
          if is_numeral c.msg.command
          then (refs, numeric c refs (set_has c.msg.command suppressed))
          else (refs, [])
    ]
