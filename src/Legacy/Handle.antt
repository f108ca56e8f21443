-- ===== src/Legacy/Handle.antt =====
-- The `switch` of `handleLine` of KoreChat.jsx.
use korechat.Common.{◌∷◌, [], Text, List, lit, Dict, lookup, none, some}
use korechat.Legacy.{State}
use korechat.Legacy.Replay.{Step, in_turn}
use korechat.Legacy.Context.{Ctx, Env, context}
use korechat.Legacy.Events.{
  welcome, cap, join, part, names, topic_reply, topic, nick_change, quit, kick, error,
}
use korechat.Legacy.Privmsg.{privmsg}

pub data Verb : Type 0 where
  welcome_ cap_ join_ part_ names_ topic_reply_ topic_ privmsg_ nick_ quit_ kick_ error_ : Verb

unfoldable pub labels : Dict Verb
labels =
    (lit "001", welcome_)
    ∷ (lit "CAP", cap_)
    ∷ (lit "JOIN", join_)
    ∷ (lit "PART", part_)
    ∷ (lit "353", names_)
    ∷ (lit "332", topic_reply_)
    ∷ (lit "TOPIC", topic_)
    ∷ (lit "PRIVMSG", privmsg_)
    ∷ (lit "NOTICE", privmsg_)
    ∷ (lit "NICK", nick_)
    ∷ (lit "QUIT", quit_)
    ∷ (lit "KICK", kick_)
    ∷ (lit "ERROR", error_)
    ∷ []

unfoldable pub on_verb : Ctx → Verb → List Step
on_verb c welcome_ = welcome c
on_verb c cap_ = cap c
on_verb c join_ = join c
on_verb c part_ = part c
on_verb c names_ = names c
on_verb c topic_reply_ = topic_reply c
on_verb c topic_ = topic c
on_verb c privmsg_ = privmsg c
on_verb c nick_ = nick_change c
on_verb c quit_ = quit c
on_verb c kick_ = kick c
on_verb c error_ = error c

unfoldable pub handle_line : Env → State → Text → Text → Step
unfolding in_turn labels on_verb
handle_line env s net_id line =
    let c = context env s net_id line in
    in_turn (elim (lookup c.msg.command labels) [ none ↦ [] | some verb ↦ on_verb c verb ])
