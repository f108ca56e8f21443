-- ===== src/Legacy/Tests.antt =====
-- The older client on small inputs, and the theorems at them.
use korechat.Common.{
  ℕ, is_white, is_digit, starts_with, is_empty, ◌∷◌, [], ◌≡◌, ◌≤◌, refl, Text, lit, text_eq, lookup,
  has_key, List, length, false, some, Dict,
}
use korechat.Chat.{message, chan_key}
use korechat.Irc.{parse_irc}
use korechat.Legacy.{Action, Message, init_state, messages_at, join_channel, add_message}
use korechat.Legacy.Marks
use korechat.Screen.Pieces.{exec, mention_here, split_at, is_word_char}
use korechat.Legacy.Parser.{parse_irc_message}
use korechat.Legacy.Agrees.{as_msg, untagged, parse_irc_message-agrees}
use korechat.Legacy.Bounded.{run-IsBounded}
use korechat.Legacy.Reducer.{run}
use korechat.Legacy.Replay.{Buffer, in_turn}
use korechat.Legacy.Context.{Env}
use korechat.Legacy.Handle.{handle_line}
use korechat.Legacy.Held.{Quiet}
use korechat.Legacy.Held.Lines.{handle_line-held}
use korechat.Legacy.Flushed.{Item, replay, of_chan, distinct}
use korechat.Legacy.Flushed.Shown.{flushed, replay-messages}

abbrev net : Text
net = b'n' ∷ []

abbrev chan : Text
chan = b'#' ∷ b'c' ∷ []

abbrev said : ℕ → Message
said c = record {
  kind = message;
  nick = some (b'k' ∷ []);
  text = c ∷ [];
  time = c ∷ [];
  tags = [];
  id = c ∷ [];
  mine = false;
}

-- A time of one character.
abbrev millis : Text → ℕ
millis [] = 0
millis (c ∷ t) = c

abbrev held : Dict Buffer
held = (net, record { messages = []; seen_ids = [] }) ∷ []

-- A line with a tag that has two "=".
abbrev tagged : Text
tagged = lit "@a=b=c :k!u@h PRIVMSG #c :hi there"

parse_irc_message-agrees_example :
    untagged (as_msg (parse_irc_message tagged)) ≡ untagged (parse_irc tagged)
parse_irc_message-agrees_example = parse_irc_message-agrees tagged

abbrev session : List Action
session = join_channel net chan ∷ add_message net chan (said 1) ∷ []

run-IsBounded_example : length (messages_at (chan_key net chan) (run init_state session)) ≤ 500
run-IsBounded_example = run-IsBounded session (chan_key net chan)

abbrev env : Env
env = record { now = lit "2025"; random_id = lit "r"; millis = millis }

handle_line-held_example : Quiet (handle_line env init_state net tagged held).1
handle_line-held_example =
    handle_line-held env init_state net tagged held (unfold has_key text_eq in refl)

-- The later message first, and a copy of it.
abbrev items : List Item
items =
    record { key = 2 ∷ []; chan = chan; msg = said 2 }
    ∷ record { key = 1 ∷ []; chan = chan; msg = said 1 }
    ∷ record { key = 2 ∷ []; chan = chan; msg = said 2 }
    ∷ []

replay-messages_example :
    messages_at (chan_key net chan) (run init_state (in_turn (replay millis net items) held).1)
    ≡ flushed millis (messages_at (chan_key net chan) init_state) (of_chan chan (distinct [] items))
replay-messages_example =
    replay-messages millis net items held init_state chan (unfold lookup text_eq in refl)

-- A mention inside of an address cuts the link.
render_text_at :
    Marks.render_text [] (lit "http://a/@bob")
    ≡ Marks.anchor (lit "http://a/") ∷ Marks.mark false (lit "@bob") ∷ []
unfolding Marks.render_text Marks.combined Marks.tokens Marks.parts_of Marks.replace_all
    Marks.url_here exec mention_here split_at is_word_char lit is_white is_digit starts_with text_eq
    is_empty
render_text_at = refl

-- The word "END" in front of a mention is taken for a marker.
render_text_end : Marks.render_text [] (lit "END@bob") ≡ Marks.mark false (lit "@bob") ∷ []
unfolding Marks.render_text Marks.combined Marks.tokens Marks.parts_of Marks.replace_all
    Marks.url_here exec mention_here split_at is_word_char lit is_white is_digit starts_with text_eq
    is_empty
render_text_end = refl
