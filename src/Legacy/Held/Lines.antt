-- ===== src/Legacy/Held/Lines.antt =====
-- The cases of `handleLine` of KoreChat.jsx during a replay.
use korechat.Common.{
  ◌∷◌, [], ◌≡◌, refl, Text, text_eq, starts_with, is_empty, lit, Dict, lookup, has_key, List, All,
  All-append, Bool-cases, Option-cases, true, false, Option, get_elem?, none, some, inl, inr,
  if◌then◌else◌, arith,
}
use korechat.Chat.{net_prefix}
use korechat.Chat.Keys.{chan_of_key}
use korechat.Client.{arg}
use korechat.Legacy.{State, Action, Channel, Message}
use korechat.Legacy.Replay.{Step, Buffer, emit, in_turn, add_msg, add_sys, flush}
use korechat.Legacy.Context.{Ctx, Env, context, sys}
use korechat.Legacy.Events
use korechat.Legacy.Events.{each_channel_of}
use korechat.Legacy.Privmsg
use korechat.Legacy.Handle.{
  Verb, welcome_, cap_, join_, part_, names_, topic_reply_, topic_, privmsg_, nick_, quit_, kick_,
  error_, labels, on_verb, handle_line,
}
use korechat.Legacy.Held.{intrudes, Quiet, Holds, Holds-emit, Holds-add_keyed, quiet-in_turn}

module _ (c : Ctx) where
  Holds-sys : (chan text : Text) → Holds c.net_id (sys c chan text)
  Holds-sys chan text = unfold add_sys in Holds-add_keyed c.net_id _ chan _

  Holds-add_msg : (chan : Text) (m : Message) → Holds c.net_id (add_msg c.net_id chan m)
  Holds-add_msg chan m = unfold add_msg in Holds-add_keyed c.net_id _ chan m

  All-each_channel_of :
      (act : Text → Text → List Step)
      → ((chan pfx : Text) → All (Holds c.net_id) (act chan pfx))
      → (chans : Dict Channel) → All (Holds c.net_id) (each_channel_of c act chans)
  unfolding each_channel_of
  All-each_channel_of act ok [] = tt
  All-each_channel_of act ok ((k, ch) ∷ chans) =
      All-append (Holds c.net_id) _ _ at_key (All-each_channel_of act ok chans)
    where
      at_member :
          (o : Option Text)
          → All (Holds c.net_id) (elim o [ none ↦ [] | some pfx ↦ act (chan_of_key k) pfx ])
      at_member none = tt
      at_member (some pfx) = ok (chan_of_key k) pfx

      at_key : All (Holds c.net_id) (
          if starts_with k (net_prefix c.net_id)
          then elim (lookup c.from_nick ch.members) [
            | none ↦ []
            | some pfx ↦ act (chan_of_key k) pfx
          ]
          else [])
      at_key = elim (Bool-cases (starts_with k (net_prefix c.net_id))) [
        | inl e ↦ rw e (at_member (lookup c.from_nick ch.members))
        | inr e ↦ rw e tt
      ]

  Holds-select : (chan : Text) → Holds c.net_id (Events.select c chan)
  Holds-select chan = record { at = λ bufs h. rw h (tt, h) }

  emitted : (a : Action) → intrudes a ≡ false → Holds c.net_id (emit a)
  emitted = Holds-emit c.net_id

  All-join : All (Holds c.net_id) (Events.join c)
  unfolding Events.join
  All-join = elim (Bool-cases (is_empty (Events.strip_colon (arg c.msg.params 0)))) [
    | inl e ↦ rw e tt
    | inr e ↦ elim (Bool-cases (text_eq c.from_nick c.nick)) [
      | inl f ↦ rw (e, f) (emitted _ refl, (Holds-select _, (Holds-sys _ _, tt)))
      | inr f ↦ rw (e, f) (emitted _ refl, (emitted _ refl, (Holds-sys _ _, tt)))
    ]
  ]

  All-part : All (Holds c.net_id) (Events.part c)
  unfolding Events.part
  All-part = elim (Bool-cases (text_eq c.from_nick c.nick)) [
    | inl f ↦ rw f (emitted _ refl, tt)
    | inr f ↦ rw f (emitted _ refl, (Holds-sys _ _, tt))
  ]

  All-own_nick : All (Holds c.net_id) (Events.own_nick c)
  All-own_nick = elim (Bool-cases (text_eq c.from_nick c.nick)) [
    | inl f ↦ rw f (emitted _ refl, tt)
    | inr f ↦ rw f tt
  ]

  All-nick_change : All (Holds c.net_id) (Events.nick_change c)
  unfolding Events.nick_change
  All-nick_change = All-append (Holds c.net_id) (Events.own_nick c) _ All-own_nick (
      All-each_channel_of (Events.rename_one c)
        (λ chan pfx. (emitted _ refl, (emitted _ refl, (Holds-sys _ _, tt)))) c.state.channels)

  All-quit : All (Holds c.net_id) (Events.quit c)
  unfolding Events.quit
  All-quit =
      All-each_channel_of (Events.quit_one c) (λ chan pfx. (emitted _ refl, (Holds-sys _ _, tt)))
        c.state.channels

  All-cap : All (Holds c.net_id) (Events.cap c)
  unfolding Events.cap
  All-cap = elim (Bool-cases (Events.is_ack (get_elem? c.msg.params 1))) [
    | inl e ↦ rw e (emitted _ refl, tt)
    | inr e ↦ rw e tt
  ]

  All-names : All (Holds c.net_id) (Events.names c)
  unfolding Events.names
  All-names = elim (Bool-cases (is_empty (arg c.msg.params 2))) [
    | inl e ↦ rw e tt
    | inr e ↦ rw e (emitted _ refl, tt)
  ]

  Holds-start_replay : Holds c.net_id (Privmsg.start_replay c)
  unfolding Privmsg.start_replay
  Holds-start_replay = record { at = λ bufs h. rw h (tt, h) }

  All-joins : (chans : List Text) → All (Holds c.net_id) (Privmsg.joins c chans)
  All-joins [] = tt
  All-joins (chan ∷ chans) = (emitted _ refl, All-joins chans)

  module _ (bufs : Dict Buffer) (held : has_key c.net_id bufs ≡ true) where
    kept : (fs : List Step) → All (Holds c.net_id) fs → Quiet (in_turn fs bufs).1
    kept fs hs = quiet-in_turn c.net_id fs hs bufs held

    quiet-replay_done : (text : Text) → Quiet (in_turn (Privmsg.replay_done c text) bufs).1
    unfolding Privmsg.replay_done flush in_turn
    quiet-replay_done text = ground arith

    quiet-bnc_control : (text : Text) → Quiet (in_turn (Privmsg.bnc_control c text) bufs).1
    unfolding Privmsg.bnc_control
    quiet-bnc_control text = elim (Bool-cases (starts_with text (lit "status:"))) [
      | inl e ↦ rw e (
          kept _ (
            unfold Privmsg.bnc_status in
            (emitted _ refl, (emitted _ refl, (Holds-start_replay, tt)))))
      | inr e ↦ elim (Bool-cases (starts_with text (lit "channels:"))) [
        | inl f ↦ rw (e, f) (kept _ (unfold Privmsg.bnc_channels in All-joins _))
        | inr f ↦ elim (Bool-cases (starts_with text (lit "replay-done"))) [
          | inl g ↦ rw (e, f, g) (quiet-replay_done text)
          | inr g ↦ rw (e, f, g) (kept [] tt)
        ]
      ]
    ]

    quiet-received : (chan text : Text) → Quiet (in_turn (Privmsg.receive c chan text) bufs).1
    quiet-received chan text = kept _ (emitted _ refl, (Holds-add_msg _ _, tt))

    quiet-status_note : (text : Text) → Quiet (in_turn (Privmsg.status_note c text) bufs).1
    quiet-status_note text = kept _ (emitted _ refl, (Holds-sys _ _, tt))

    quiet-privmsg : Quiet (in_turn (Privmsg.privmsg c) bufs).1
    unfolding Privmsg.privmsg
    quiet-privmsg = elim (Bool-cases (is_empty (Privmsg.window c))) [
      | inl e ↦ rw e (kept [] tt)
      | inr e ↦ elim (Bool-cases (Privmsg.is_from c (lit "*korechat*"))) [
        | inl f ↦ rw (e, f) (quiet-status_note (arg c.msg.params 1))
        | inr f ↦ elim (Bool-cases (Privmsg.is_from c (lit "*bnc*"))) [
          | inl g ↦ rw (e, f, g) (quiet-bnc_control (arg c.msg.params 1))
          | inr g ↦ elim (Bool-cases (Privmsg.is_server_notice c)) [
            | inl k ↦ rw (e, f, g, k) (kept [] tt)
            | inr k ↦ elim (Bool-cases (Privmsg.is_echo c)) [
              | inl l ↦ rw (e, f, g, k, l) (kept [] tt)
              | inr l ↦ rw (e, f, g, k, l) (quiet-received (Privmsg.window c) (arg c.msg.params 1))
            ]
          ]
        ]
      ]
    ]

    quiet-on_verb : (v : Verb) → Quiet (in_turn (on_verb c v) bufs).1
    unfolding on_verb
    quiet-on_verb welcome_ =
        unfold Events.welcome in kept _ (emitted _ refl, (emitted _ refl, (emitted _ refl, tt)))
    quiet-on_verb cap_ = kept _ All-cap
    quiet-on_verb join_ = kept _ All-join
    quiet-on_verb part_ = kept _ All-part
    quiet-on_verb names_ = kept _ All-names
    quiet-on_verb topic_reply_ = unfold Events.topic_reply in kept _ (emitted _ refl, tt)
    quiet-on_verb topic_ = unfold Events.topic in kept _ (emitted _ refl, (Holds-sys _ _, tt))
    quiet-on_verb privmsg_ = quiet-privmsg
    quiet-on_verb nick_ = kept _ All-nick_change
    quiet-on_verb quit_ = kept _ All-quit
    quiet-on_verb kick_ = unfold Events.kick in kept _ (emitted _ refl, (Holds-sys _ _, tt))
    quiet-on_verb error_ = unfold Events.error in kept _ (emitted _ refl, tt)

-- In the older client: while the messages of a network are held for a replay, no line of that
-- network shows a message by itself or selects a network or a channel; none of the actions that it
-- dispatches is ADD_MESSAGE, SET_ACTIVE_NET or SET_ACTIVE_CHAN.
pub handle_line-held :
    (env : Env) (s : State) (net_id line : Text) (bufs : Dict Buffer)
    → has_key net_id bufs ≡ true
    → Quiet (handle_line env s net_id line bufs).1
unfolding handle_line context
handle_line-held env s net_id line bufs held =
    elim (Option-cases (lookup (context env s net_id line).msg.command labels)) [
      | inl e ↦ rw e (unfold in_turn in tt)
      | inr (v, e) ↦ rw e (quiet-on_verb (context env s net_id line) bufs held v)
    ]
