-- ===== src/Command/Clicked.antt =====
-- What the menu of a member sends, by way of `handleSend` (frontend/app.jsx).
use mathlib.Core.List.{append-nil}
use korechat.Common.{
  ◌++◌, ◌∷◌, [], ◌≡◌, ◌∙◌, refl, sym, ap, Text, lit, text_eq, is_empty, or_text, starts_with, lower,
  lookup, set_has, join, trim_end, words, IsSolid, trim_words, words-word, words_last, List, true,
  false, some,
}
use korechat.Chat.{status_chan}
use korechat.Client.{Refs, Env, send}
use korechat.Command.Handle.{Verb, labels, on_verb, input, handle_send, kick_}
use korechat.Command.Menu.{Menu, kick_command}
use korechat.Command.Operators.{kick}
use korechat.Command.{Input, raw, is_ready}
use korechat.Irc.{break_at}

-- The connection is ready, and the menu is on a member with a word for a nick, of the selected channel.
pub record IsOpen (refs : Refs) (net_id : Text) (m : Menu) : Type 0 where
  pub ready : set_has net_id refs.ready ≡ true
  pub nick : IsSolid m.nick
  pub chan : IsSolid m.chan
  pub not_status : text_eq m.chan status_chan ≡ false

-- `handleSend` of "/kick #channel nick ...", in that channel.
kick_input :
    (env : Env) (refs : Refs) (net_id chan nick reason : Text)
    → IsSolid chan
    → IsSolid nick
    → (input env refs net_id chan
        (lit "/kick " ++ (chan ++ (b' ' ∷ (nick ++ (b' ' ∷ reason)))))).args
      ≡ chan ∷ nick ∷ words (trim_end (b' ' ∷ reason))
unfolding input lit break_at
kick_input env refs net_id chan nick reason h k = rw (trim_words chan nick (b' ' ∷ reason) h k) (
    words-word chan (nick ++ trim_end (b' ' ∷ reason)) h
    ∙ ap (λ ws. chan ∷ ws) (words_last nick reason k))

kick_verb : lookup (lit "/kick") labels ≡ some kick_
unfolding labels lookup text_eq lit
kick_verb = refl

kick_cmd :
    (env : Env) (refs : Refs) (net_id chan rest : Text)
    → (input env refs net_id chan (lit "/kick " ++ rest)).cmd ≡ lit "/kick"
unfolding input lit break_at lower
kick_cmd env refs net_id chan rest = refl

sends_kick :
    (i : Input) (nick : Text) (ws : List Text)
    → is_ready i ≡ true
    → is_empty i.chan ≡ false
    → text_eq i.chan status_chan ≡ false
    → i.args ≡ i.chan ∷ nick ∷ ws
    → kick i
      ≡ raw i (
          lit "KICK "
          ++ (i.chan
              ++ (lit " "
                  ++ (i.chan
                      ++ (lit " :" ++ or_text (join (lit " ") (nick ∷ ws)) (lit "Kicked"))))))
        ∷ []
unfolding kick
sends_kick i nick ws r e k h = rw (r, h, e, k) (rw e)

pub handled :
    (env : Env) (refs : Refs) (net_id chan text : Text) (v : Verb)
    → starts_with text (lit "/") ≡ true
    → lookup (input env refs net_id chan text).cmd labels ≡ some v
    → handle_send env refs net_id chan text ≡ on_verb (input env refs net_id chan text) v
unfolding handle_send
handled env refs net_id chan text v h e = rw (h, e)

pub slash :
    (s : Text)
    → (starts_with (lit "/kick " ++ s) (lit "/") ≡ true)
      × (starts_with (lit "/mode " ++ s) (lit "/") ≡ true)
unfolding starts_with lit
slash s = (refl, refl)

kick_handled :
    (env : Env) (refs : Refs) (net_id chan rest : Text)
    → handle_send env refs net_id chan (lit "/kick " ++ rest)
      ≡ kick (input env refs net_id chan (lit "/kick " ++ rest))
unfolding on_verb
kick_handled env refs net_id chan rest =
    handled env refs net_id chan (lit "/kick " ++ rest) kick_ (slash rest).0
      (ap (λ c. lookup c labels) (kick_cmd env refs net_id chan rest) ∙ kick_verb)

input_place :
    (env : Env) (refs : Refs) (net_id chan rest : Text)
    → ((input env refs net_id chan (lit "/kick " ++ rest)).net_id ≡ net_id)
      × (((input env refs net_id chan (lit "/kick " ++ rest)).chan ≡ chan)
          × ((input env refs net_id chan (lit "/kick " ++ rest)).refs ≡ refs))
unfolding input lit break_at
input_place env refs net_id chan rest = (refl, (refl, refl))

-- What is joined begins with the first text.
join_begins : (w : Text) (ws : List Text) → (tail : Text) × (join (lit " ") (w ∷ ws) ≡ w ++ tail)
unfolding join
join_begins w [] = ([], sym (append-nil w))
join_begins w (v ∷ ws) = (_, refl)

or_text_solid : (w t u : Text) → is_empty w ≡ false → or_text (w ++ t) u ≡ w ++ t
unfolding or_text is_empty
or_text_solid [] t u h = cc
or_text_solid (c ∷ w) t u h = refl

-- For a ready connection and a member's menu in the selected channel, whose name is a word, as is
-- the nick: the command of its rows "Kick" and "Kick & Ban" sends one line, which asks to kick the
-- channel's own name out of the channel, with the nick at the head of the reason.
pub kick_command-misses :
    (env : Env) (refs : Refs) (net_id : Text) (m : Menu) (reason other : Text)
    → IsOpen refs net_id m
    → (tail : Text) × (handle_send env refs net_id m.chan (kick_command m reason other)
        ≡ send net_id
            (lit "KICK " ++ (m.chan ++ (lit " " ++ (m.chan ++ (lit " :" ++ (m.nick ++ tail))))))
          ∷ [])
unfolding handle_send on_verb
kick_command-misses env refs net_id m reason other h =
    let text = or_text reason other in
    let rest = m.chan ++ (b' ' ∷ (m.nick ++ (b' ' ∷ text))) in
    let ws = words (trim_end (b' ' ∷ text)) in
    let i = input env refs net_id m.chan (lit "/kick " ++ rest) in
    let (n, (c, r)) = input_place env refs net_id m.chan rest in
    let (tail, e) = join_begins m.nick ws in
    (
      tail,
      kick_handled env refs net_id m.chan rest
          ∙ sends_kick i m.nick ws (rw (n, r) h.ready) (rw c h.chan.0) (rw c h.not_status)
              (rw c (kick_input env refs net_id m.chan m.nick text h.chan h.nick))
          ∙ rw (n, c, e, or_text_solid m.nick tail (lit "Kicked") h.nick.0),
    )
