-- ===== src/Command/Echoed.antt =====
-- The lines that `handleSend` sends, as `parseIRC` reads them, and the user's own messages as
-- `handleLine` shows them (frontend/app.jsx).
use korechat.Common.{
  ℕ, ◌+◌, ◌-◌, ◌++◌, ◌∷◌, [], ◌≡◌, refl, ap, sym, Text, lit, text_eq, is_empty, take, drop, length,
  length-append, true, false, arith, starts_with-append, ends_with,
}
use mathlib.Core.List.{append_assoc, reverse, reverse-append}
use korechat.Chat.{status_chan}
use korechat.Irc.{parse_irc, parse_prefix, parse_command, parse_params, break_at, upper_char}
use korechat.Irc.Words.{parse_params-cons}
use korechat.Irc.RoundTrip.{IsWord, IsWord-nonempty, parse_params-word}
use korechat.Line.Privmsg.{display_text, is_action}
use korechat.Command.{Input, is_ready, raw, own_message}
use korechat.Command.Messages.{say, action}

parse_params-trailing :
    (chan text : Text)
    → IsWord chan
    → parse_params (chan ++ (b' ' ∷ b':' ∷ text)) ≡ chan ∷ text ∷ []
parse_params-trailing chan text h =
    rw (parse_params-word chan (b':' ∷ text) h) (rw parse_params-cons)

parse_irc-privmsg :
    (chan text : Text)
    → IsWord chan
    → parse_irc (lit "PRIVMSG " ++ (chan ++ (lit " :" ++ text)))
      ≡ record { tags = []; prefix = []; command = lit "PRIVMSG"; params = chan ∷ text ∷ [] }
unfolding lit parse_irc parse_prefix parse_command break_at upper_char
parse_irc-privmsg chan text h = rw (parse_params-trailing chan text h)

-- The text that "/me" sends.
abbrev pub action_text : Text → Text
action_text rest = (1 ∷ lit "ACTION ") ++ (rest ++ (1 ∷ []))

ends_with-append_last : (s : Text) (c : ℕ) → ends_with (s ++ (c ∷ [])) (c ∷ []) ≡ true
unfolding ends_with
ends_with-append_last s c = rw (reverse-append s (c ∷ [])) (starts_with-append (c ∷ []) (reverse s))

action_text-is_action : (rest : Text) → is_action (action_text rest) ≡ true
unfolding is_action
action_text-is_action rest =
    let e : action_text rest ≡ ((1 ∷ lit "ACTION ") ++ rest) ++ (1 ∷ []) =
      sym (append_assoc (1 ∷ lit "ACTION ") rest (1 ∷ [])) in
    let f : ends_with (action_text rest) (1 ∷ []) ≡ true =
      rw e (ends_with-append_last ((1 ∷ lit "ACTION ") ++ rest) 1) in
    rw (f, starts_with-append (1 ∷ lit "ACTION ") (rest ++ (1 ∷ [])))

take-length_append : (s t : Text) → take (length s) (s ++ t) ≡ s
take-length_append [] t = refl
take-length_append (c ∷ s) t = ap (λ w. c ∷ w) (take-length_append s t)

-- The text of an action without its frame.
action_text-inner :
    (rest : Text) → take (length (action_text rest) - 9) (drop 8 (action_text rest)) ≡ rest
unfolding lit
action_text-inner rest =
    let e : length (rest ++ (1 ∷ [])) ≡ length rest + 1 = length-append rest (1 ∷ []) in
    let f : length (action_text rest) - 9 ≡ length rest = omega arith in
    rw f (take-length_append rest (1 ∷ []))

display_text-action :
    (from rest : Text)
    → display_text from (action_text rest) ≡ lit "* " ++ (from ++ (lit " " ++ rest))
unfolding display_text
display_text-action from rest = rw (action_text-is_action rest, action_text-inner rest)

-- For a ready connection, a window other than the status window whose name is a word, and some
-- text: "/me" sends one line, which the parser reads as a PRIVMSG to that window with a framed text,
-- and shows at once what that framed text shows when it comes back from the user's own nick.
pub action-echo :
    (i : Input)
    → is_ready i ≡ true
    → IsWord i.chan
    → text_eq i.chan status_chan ≡ false
    → is_empty i.rest ≡ false
    → (line : Text) × (action i
        ≡ raw i line ∷ own_message i i.chan (display_text i.me (action_text i.rest)) ∷ [])
      × (parse_irc line ≡ record {
        tags = [];
        prefix = [];
        command = lit "PRIVMSG";
        params = i.chan ∷ action_text i.rest ∷ [];
      })
unfolding action
action-echo i ready word chan text = (
  lit "PRIVMSG " ++ (i.chan ++ (lit " :" ++ action_text i.rest)),
  rw (ready, IsWord-nonempty i.chan word, chan, text, display_text-action i.me i.rest),
  parse_irc-privmsg i.chan (action_text i.rest) word,
)

-- For a ready connection and a window other than the status window whose name is a word: a text
-- that is no command is sent as one line, which the parser reads as a PRIVMSG of exactly that text
-- to that window, whatever the text holds, and the text is shown at once.
pub say-echo :
    (i : Input) (text : Text)
    → is_ready i ≡ true
    → IsWord i.chan
    → text_eq i.chan status_chan ≡ false
    → (line : Text) × (say i text ≡ raw i line ∷ own_message i i.chan text ∷ [])
      × (parse_irc line
          ≡ record { tags = []; prefix = []; command = lit "PRIVMSG"; params = i.chan ∷ text ∷ [] })
unfolding say
say-echo i text ready word chan = (
  lit "PRIVMSG " ++ (i.chan ++ (lit " :" ++ text)),
  rw (ready, IsWord-nonempty i.chan word, chan),
  parse_irc-privmsg i.chan text word,
)
