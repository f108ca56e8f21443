-- ===== src/Line/Members.antt =====
-- NICK, JOIN, PART, KICK, QUIT and TOPIC in `handleLine` (frontend/app.jsx).
use korechat.Common.{
  ◌++◌, ◌∷◌, [], Text, lit, text_eq, starts_with, is_empty, Dict, lookup, set_has, List, Bool,
  false, ◌||◌, Option, none, some, get_or_else, if◌then◌else◌, drop, get_elem?,
}
use korechat.Chat.{
  Channel, set_nick, del_member, set_members, chan_join, chan_part, set_active_chan, set_topic,
  net_prefix,
}
use korechat.Chat.Keys.{chan_of_key}
use korechat.Client.{Refs, Out, dispatch, load_history, arg, shown}
use korechat.Line.{Ctx, sys, membership, in_history}

-- `reason ? ": " + reason : ""`
abbrev pub colon_reason : Text → Text
colon_reason reason = if is_empty reason then [] else lit ": " ++ reason

-- The two loops over `Object.keys(chans)`: `act` on the channel and the member's prefix, in each
-- channel of the network that has the sender.
unfoldable pub each_channel_of : Ctx → (Text → Text → List Out) → Dict Channel → List Out
each_channel_of c act [] = []
each_channel_of c act ((k, ch) ∷ chans) =
    (if starts_with k (net_prefix c.net_id)
      then elim (lookup c.from ch.members) [ none ↦ [] | some pfx ↦ act (chan_of_key k) pfx ]
      else [])
    ++ each_channel_of c act chans

unfoldable pub nick_change : Ctx → Refs → List Out
nick_change c refs =
    let new_nick = shown c.msg.params 0 in
    if in_history c refs
    then []
    else (if text_eq c.from c.me
        then dispatch (set_nick c.net_id (arg c.msg.params 0)) ∷ []
        else [])
      ++ each_channel_of c
          (λ chan pfx.
            dispatch (del_member c.net_id chan c.from)
            ∷ dispatch (set_members c.net_id chan ((new_nick, pfx) ∷ []))
            ∷ sys c chan (c.from ++ (lit " is now known as " ++ new_nick)) []
            ∷ [])
          refs.channels

-- `s.replace(/^:/, "")`
abbrev strip_colon : Text → Text
strip_colon s = if starts_with s (lit ":") then drop 1 s else s

-- `!netDefault || chan === netDefault`
abbrev goes_to : Text → Text → Bool
goes_to net_default chan = is_empty net_default || text_eq chan net_default

unfoldable pub join : Ctx → Refs → List Out
join c refs =
    let chan = strip_colon (arg c.msg.params 0) in
    if in_history c refs
    then []
    else if is_empty chan
    then []
    else dispatch (chan_join c.net_id chan)
      ∷ (if text_eq c.from c.me
          then (if goes_to (get_or_else (lookup c.net_id refs.default_chans) []) chan
              then dispatch (set_active_chan c.net_id chan) ∷ []
              else [])
            ++ (if set_has c.net_id refs.replay_done
                then load_history 350 c.net_id chan ∷ []
                else [])
          else dispatch (set_members c.net_id chan ((c.from, []) ∷ []))
            ∷ sys c chan (lit "→ " ++ (c.from ++ lit " joined")) membership
            ∷ [])

unfoldable pub part : Ctx → Refs → List Out
part c refs =
    let chan = arg c.msg.params 0 in
    if in_history c refs
    then []
    else if is_empty chan
    then []
    else if text_eq c.from c.me
    then dispatch (chan_part c.net_id chan) ∷ []
    else dispatch (del_member c.net_id chan c.from)
      ∷ sys c chan (lit "← " ++ (c.from ++ (lit " left" ++ colon_reason (arg c.msg.params 1))))
          membership
      ∷ []

-- `target === me`
abbrev is_me : Option Text → Text → Bool
is_me none me = false
is_me (some t) me = text_eq t me

-- A missing channel or target is the text "undefined" in a key or a template; the comparison with
-- `me` then fails.
unfoldable pub kick : Ctx → Refs → List Out
kick c refs =
    let chan = shown c.msg.params 0 in
    let target = shown c.msg.params 1 in
    if in_history c refs
    then []
    else dispatch (del_member c.net_id chan target)
      ∷ sys c chan
          (lit "✕ "
            ++ (target ++ (lit " was kicked by " ++ (c.from ++ colon_reason (arg c.msg.params 3)))))
          membership
      ∷ (if is_me (get_elem? c.msg.params 1) c.me
          then dispatch (chan_part c.net_id chan) ∷ []
          else [])

unfoldable pub quit : Ctx → Refs → List Out
quit c refs =
    if in_history c refs
    then []
    else each_channel_of c
        (λ chan pfx.
          dispatch (del_member c.net_id chan c.from)
          ∷ sys c chan (lit "✕ " ++ (c.from ++ (lit " quit" ++ colon_reason (arg c.msg.params 0))))
              membership
          ∷ [])
        refs.channels

unfoldable pub topic : Ctx → Refs → List Out
topic c refs =
    let chan = shown c.msg.params 0 in
    if in_history c refs
    then []
    else dispatch (set_topic c.net_id chan (arg c.msg.params 1))
      ∷ sys c chan (c.from ++ (lit " set topic: " ++ arg c.msg.params 1)) []
      ∷ []

-- 332 and 331
unfoldable pub topic_reply : Ctx → Text → List Out
topic_reply c topic =
    let chan = arg c.msg.params 1 in
    if is_empty chan then [] else dispatch (set_topic c.net_id chan topic) ∷ []
