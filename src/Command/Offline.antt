-- ===== src/Command/Offline.antt =====
-- `handleSend` (frontend/app.jsx) on a network whose connection is not ready.
use korechat.Common.{
  ◌++◌, ◌∷◌, [], ◌≡◌, refl, ap, ◌∙◌, Text, is_empty, starts_with, lookup, set_has, lit, Dict, List,
  map, Bool-cases, false, Option-cases, inl, inr, arith,
}
use korechat.Client.{Refs, Env, Out, send, send_later, ensure_chan, add_sys}
use korechat.Command.{Input, is_ready, sys, first}
use korechat.Command.Messages
use korechat.Command.Operators
use korechat.Command.Queries
use korechat.Command.Table.{commands}
use korechat.Command.Handle.{
  Verb, connect_, disconnect_, reconnect_, join_, part_, close_, msg, me_, notice_, nick_, oper_,
  away_, back_, topic_, kick_, ban_, unban_, kickban_, op, deop, voice, devoice, halfop, dehalfop,
  mode_, invite_, whois_, who_, names_, list_, whowas_, stats, links, time_, version, info, motd,
  lusers, map_, ping_, ctcp_, ignore_, unignore_, raw_, clear, help, labels, on_verb, input,
  handle_send, help_lines, clear_window, strip_slash,
}
use korechat.Irc.{break_at}

-- The lines that go to a network, at once or later, in order.
abbrev pub sent : List Out → List Text
sent [] = []
sent (send net_id raw ∷ os) = raw ∷ sent os
sent (send_later delay net_id raw ∷ os) = raw ∷ sent os
sent (o ∷ os) = sent os

sent-append : (os ps : List Out) → sent (os ++ ps) ≡ sent os ++ sent ps
sent-append [] ps = refl
sent-append (send net_id raw ∷ os) ps = ap (λ l. raw ∷ l) (sent-append os ps)
sent-append (send_later d net_id raw ∷ os) ps = ap (λ l. raw ∷ l) (sent-append os ps)
sent-append (o ∷ os) ps = sent-append os ps

module _ (i : Input) (e : is_ready i ≡ false) where
  sent-ensure_chan : (chan : Text) → sent (ensure_chan i.refs i.net_id chan) ≡ []
  unfolding ensure_chan
  sent-ensure_chan chan = rw e (ground arith)

  sent-sys : (t : Text) → sent (sys i t) ≡ []
  unfolding sys add_sys
  sent-sys t = rw (sent-append, sent-ensure_chan)

  sent-help :
      (d : Dict Text)
      → sent (
          map
            (λ (x : Text × Text). add_sys i.net_id i.chan (x.0 ++ (lit " — " ++ x.1)) [] i.env.now)
            d)
        ≡ []
  unfolding add_sys
  sent-help [] = refl
  sent-help (x ∷ d) = sent-help d

  sent-help_lines : sent (help_lines i) ≡ []
  unfolding help_lines
  sent-help_lines = elim (Bool-cases (is_empty i.chan)) [
    | inl f ↦ rw f refl
    | inr f ↦ elim (Bool-cases (is_empty (first i))) [
      | inl g ↦ rw (f, g) (sent-help commands)
      | inr g ↦ elim (Option-cases (lookup (lit "/" ++ strip_slash (first i)) commands)) [
        | inl h ↦ rw (f, g, h) (sent-help commands)
        | inr (d, h) ↦ rw (f, g, h) (unfold add_sys in refl)
      ]
    ]
  ]

  sent-on_verb : (v : Verb) → sent (on_verb i v) ≡ []
  unfolding on_verb
  sent-on_verb connect_ = refl
  sent-on_verb disconnect_ = refl
  sent-on_verb reconnect_ = refl
  sent-on_verb join_ =
      unfold Messages.join_channel in rw e (sent-sys (lit "Not connected. Type /connect first."))
  sent-on_verb part_ = unfold Messages.part_channel in rw e (sent-sys (lit "Not connected."))
  sent-on_verb close_ = unfold Messages.close_window in ground arith
  sent-on_verb msg = unfold Messages.private_message in rw e (sent-sys (lit "Not connected."))
  sent-on_verb me_ = unfold Messages.action in rw e (sent-sys (lit "Not connected."))
  sent-on_verb notice_ =
      unfold Messages.notice in rw e (sent-sys (lit "Usage: /notice <nick|#chan> <text>"))
  sent-on_verb nick_ = unfold Messages.change_nick in rw e (sent-sys (lit "Not connected."))
  sent-on_verb oper_ = unfold Messages.oper in rw e (sent-sys (lit "Not connected."))
  sent-on_verb away_ = unfold Messages.away in rw e (sent-sys (lit "Not connected."))
  sent-on_verb back_ = unfold Messages.back in rw e refl
  sent-on_verb topic_ = unfold Operators.topic in rw e (sent-sys (lit "Not connected."))
  sent-on_verb kick_ = unfold Operators.kick in rw e (sent-sys (lit "Not connected."))
  sent-on_verb ban_ = unfold Operators.ban in rw e (sent-sys (lit "Usage: /ban <mask>"))
  sent-on_verb unban_ = unfold Operators.unban in rw e (sent-sys (lit "Usage: /unban <mask>"))
  sent-on_verb kickban_ = unfold Operators.kickban in rw e (sent-sys (lit "Not connected."))
  sent-on_verb op = unfold Operators.member_mode in rw e (sent-sys (lit "Not connected."))
  sent-on_verb deop = unfold Operators.member_mode in rw e (sent-sys (lit "Not connected."))
  sent-on_verb voice = unfold Operators.member_mode in rw e (sent-sys (lit "Not connected."))
  sent-on_verb devoice = unfold Operators.member_mode in rw e (sent-sys (lit "Not connected."))
  sent-on_verb halfop = unfold Operators.member_mode in rw e (sent-sys (lit "Not connected."))
  sent-on_verb dehalfop = unfold Operators.member_mode in rw e (sent-sys (lit "Not connected."))
  sent-on_verb mode_ = unfold Operators.mode in rw e (sent-sys (lit "Not connected."))
  sent-on_verb invite_ =
      unfold Operators.invite in rw e (sent-sys (lit "Usage: /invite <nick> [#channel]"))
  sent-on_verb whois_ = unfold Queries.whois in rw e (sent-sys (lit "Not connected."))
  sent-on_verb who_ = unfold Queries.who in rw e (sent-sys (lit "Not connected."))
  sent-on_verb names_ = unfold Queries.names in rw e refl
  sent-on_verb list_ = unfold Queries.query_status in rw e (sent-sys (lit "Not connected."))
  sent-on_verb whowas_ = unfold Queries.whowas in rw e (sent-sys (lit "Not connected."))
  sent-on_verb stats = unfold Queries.query_status in rw e (sent-sys (lit "Not connected."))
  sent-on_verb links = unfold Queries.query_status in rw e (sent-sys (lit "Not connected."))
  sent-on_verb time_ = unfold Queries.query in rw e (sent-sys (lit "Not connected."))
  sent-on_verb version = unfold Queries.query in rw e (sent-sys (lit "Not connected."))
  sent-on_verb info = unfold Queries.query_status in rw e (sent-sys (lit "Not connected."))
  sent-on_verb motd = unfold Queries.query_status in rw e (sent-sys (lit "Not connected."))
  sent-on_verb lusers = unfold Queries.query in rw e (sent-sys (lit "Not connected."))
  sent-on_verb map_ = unfold Queries.query_status in rw e (sent-sys (lit "Not connected."))
  sent-on_verb ping_ = unfold Messages.ping in rw e (sent-sys (lit "Not connected."))
  sent-on_verb ctcp_ = unfold Messages.ctcp in rw e (sent-sys (lit "Not connected."))
  sent-on_verb ignore_ =
      unfold Messages.ignore in
      ground (arith, sent-sys (lit "Usage: /ignore <nick>"), sent-sys (lit "Ignoring " ++ first i))
  sent-on_verb unignore_ =
      unfold Messages.unignore in
      ground (
        arith,
        sent-sys (lit "Usage: /unignore <nick>"),
        sent-sys (lit "No longer ignoring " ++ first i),
      )
  sent-on_verb raw_ = unfold Messages.raw_line in rw e (sent-sys (lit "Not connected."))
  sent-on_verb clear = unfold clear_window add_sys in ground arith
  sent-on_verb help = sent-help_lines

  sent-say : (text : Text) → sent (Messages.say i text) ≡ []
  unfolding Messages.say
  sent-say text = rw e (sent-sys (lit "Not connected. Type /connect to connect."))

-- The refs of an input are those that it was made with.
is_ready-input :
    (env : Env) (refs : Refs) (net_id chan text : Text)
    → is_ready (input env refs net_id chan text) ≡ set_has net_id refs.ready
unfolding input
is_ready-input env refs net_id chan text = elim (Option-cases (break_at b' ' text)) [
  | inl e ↦ rw (input, e) refl
  | inr (p, e) ↦ rw (input, e) refl
]

-- While the connection of the selected network is not ready, no text that the user enters sends a
-- line, at once or later, be it a message, a command of the table or an unknown one.
pub handle_send-offline :
    (env : Env) (refs : Refs) (net_id chan text : Text)
    → set_has net_id refs.ready ≡ false
    → sent (handle_send env refs net_id chan text) ≡ []
unfolding handle_send
handle_send-offline env refs net_id chan text h =
    let i : Input = input env refs net_id chan text in
    let e : is_ready i ≡ false = is_ready-input env refs net_id chan text ∙ h in
    elim (Bool-cases (starts_with text (lit "/"))) [
      | inr f ↦ rw f (sent-say i e text)
      | inl f ↦ elim (Option-cases (lookup i.cmd labels)) [
        | inl g ↦
            rw (f, g) (sent-sys i e (lit "Unknown command: " ++ (i.cmd ++ lit "  (type /help)")))
        | inr (v, g) ↦ rw (f, g) (sent-on_verb i e v)
      ]
    ]
