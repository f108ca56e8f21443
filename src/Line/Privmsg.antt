-- ===== src/Line/Privmsg.antt =====
-- PRIVMSG, NOTICE and BATCH in `handleLine` (frontend/app.jsx).
use korechat.Common.{
  ◌-◌, ◌++◌, ◌∷◌, [], Text, lit, text_eq, starts_with, is_empty, or_text, Dict, lookup, put, remove,
  List, take, drop, length, Bool, true, false, not, ◌&&◌, ◌||◌, Option, none, some, get_or_else,
  if◌then◌else◌, ends_with, includes, lower,
}
use korechat.Chat.{Message, message, add_msg, prepend_msgs, status_chan, net_prefix}
use korechat.Client.{Refs, Batch, Out, dispatch, notify, ensure_chan, arg}
use korechat.Line.{Ctx, batch_tag, is_chathistory}
use korechat.Line.Control.{is_control, control}

unfoldable pub is_action : Text → Bool
is_action text = starts_with text (1 ∷ lit "ACTION ") && ends_with text (1 ∷ [])

-- `isAction ? `* ${from} ${text.slice(8, -1)}` : text`
unfoldable pub display_text : Text → Text → Text
unfolding is_action
display_text from text =
    if is_action text
    then lit "* " ++ (from ++ (lit " " ++ take (length text - 9) (drop 8 text)))
    else text

-- The window of a message.
unfoldable pub target_chan : Ctx → Text → Text
target_chan c target =
    if not (includes c.msg.prefix (lit "!"))
    then status_chan
    else if not (is_empty target) && not (starts_with target (lit "#"))
    then (if text_eq c.from c.me then target else c.from)
    else target

unfoldable pub message_of : Ctx → Text → Message
message_of c text = record {
  kind = message;
  subtype = [];
  nick = some c.from;
  text = display_text c.from text;
  time = c.time;
  id = or_text (get_or_else (lookup (lit "msgid") c.msg.tags) []) c.env.random_id;
}

-- The name is mentioned by somebody else.
unfoldable pub is_mention : Text → Text → Message → Bool
is_mention me from m =
    not (is_empty me)
    && (not (is_empty m.text) && (includes (lower m.text) (lower me) && not (text_eq from me)))

unfoldable pub notification : Ctx → Text → Message → List Out
notification c chan m =
    let dm = not (starts_with chan (lit "#")) in
    let mention = not dm && is_mention c.me c.from m in
    let wanted = (dm && c.env.notif_dms) || (mention && c.env.notif_mentions) in
    if c.env.notif_granted && (not c.env.only_when_hidden || c.env.hidden)
    then (if wanted && not (is_empty c.from)
        then notify
            (if dm then lit "DM from " ++ c.from else c.from ++ (lit " mentioned you in " ++ chan))
            (take 120 m.text) (lit "kc-" ++ (c.net_id ++ (lit "-" ++ chan)))
          ∷ []
        else [])
    else []

unfoldable pub live_message : Ctx → Refs → Text → Message → List Out
unfolding notification
live_message c refs chan m =
    ensure_chan refs c.net_id chan ++ (dispatch (add_msg c.net_id chan m) ∷ notification c chan m)

-- The entry of `batchBufRef` that the line's tag names, if it has one.
unfoldable pub batch_of : Ctx → Refs → Option Batch
batch_of c refs =
    if is_empty (batch_tag c)
    then none
    else lookup (net_prefix c.net_id ++ batch_tag c) refs.batch_buf

unfoldable pub privmsg : Ctx → Refs → Refs × List Out
privmsg c refs =
    let text = arg c.msg.params 1 in
    let chan = target_chan c (arg c.msg.params 0) in
    let m = message_of c text in
    if is_control c
    then (refs, control c refs text)
    else if is_empty chan
    then (refs, [])
    else elim (batch_of c refs) [
      | some b ↦ (
        record refs {
          batch_buf =
              put (net_prefix c.net_id ++ batch_tag c)
                (record b { msgs = b.msgs ++ (chan, m) ∷ [] }) refs.batch_buf;
        },
        [],
      )
      | none ↦ (refs, live_message c refs chan m)
    ]

-- `byChan`: the messages of a batch by channel, the channels in order of their first message.
unfoldable pub by_chan : List (Text × Message) → Dict (List Message) → Dict (List Message)
by_chan [] o = o
by_chan ((chan, m) ∷ ms) o = by_chan ms (put chan (get_or_else (lookup chan o) [] ++ m ∷ []) o)

unfoldable pub prepend_all : Refs → Text → Dict (List Message) → List Out
prepend_all refs net_id [] = []
prepend_all refs net_id ((chan, msgs) ∷ o) =
    (ensure_chan refs net_id chan ++ dispatch (prepend_msgs net_id chan msgs) ∷ [])
    ++ prepend_all refs net_id o

unfoldable pub add_all : Refs → Text → List (Text × Message) → List Out
add_all refs net_id [] = []
add_all refs net_id ((chan, m) ∷ ms) =
    (ensure_chan refs net_id chan ++ dispatch (add_msg net_id chan m) ∷ [])
    ++ add_all refs net_id ms

abbrev is_nil : List (Text × Message) → Bool
is_nil [] = true
is_nil (m ∷ ms) = false

unfoldable pub flush_batch : Refs → Text → Batch → List Out
flush_batch refs net_id b =
    if is_chathistory b.type_ && not (is_nil b.msgs)
    then prepend_all refs net_id (by_chan b.msgs [])
    else add_all refs net_id b.msgs

unfoldable pub batch : Ctx → Refs → Refs × List Out
unfolding flush_batch
batch c refs =
    let ref = arg c.msg.params 0 in
    let key = net_prefix c.net_id ++ drop 1 ref in
    if starts_with ref (lit "+")
    then (
      record refs {
        batch_buf =
            put key (record { type_ = arg c.msg.params 1; chan = arg c.msg.params 2; msgs = [] })
              refs.batch_buf;
      },
      [],
    )
    else if starts_with ref (lit "-")
    then (
      record refs { batch_buf = remove key refs.batch_buf },
      elim (lookup key refs.batch_buf) [ none ↦ [] | some b ↦ flush_batch refs c.net_id b ],
    )
    else (refs, [])
