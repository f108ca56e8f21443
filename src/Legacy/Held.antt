-- ===== src/Legacy/Held.antt =====
-- `handleLine` of KoreChat.jsx during a replay.
pub mod Lines
use korechat.Common.{
  ◌++◌, ◌∷◌, [], ◌≡◌, refl, Text, text_eq, starts_with, is_empty, lit, Dict, lookup, has_key,
  lookup-put_self, has_key-lookup, List, All, All-append, Bool, Bool-cases, Option-cases, true,
  false, Option, get_elem?, none, some, inl, inr, if◌then◌else◌, arith,
}
use korechat.Chat.{net_prefix}
use korechat.Chat.Keys.{chan_of_key}
use korechat.Client.{arg}
use korechat.Legacy.{State, Action, Channel, Message, add_message, set_active_net, set_active_chan}
use korechat.Legacy.Replay.{Step, Buffer, emit, in_turn, add_keyed, add_msg, add_sys, flush}
use korechat.Legacy.Context.{Ctx, Env, context, sys}
use korechat.Legacy.Events
use korechat.Legacy.Events.{each_channel_of}
use korechat.Legacy.Privmsg
use korechat.Legacy.Handle.{
  Verb, welcome_, cap_, join_, part_, names_, topic_reply_, topic_, privmsg_, nick_, quit_, kick_,
  error_, labels, on_verb, handle_line,
}

-- An action that shows a message, or selects a network or a channel.
abbrev pub intrudes : Action → Bool
intrudes (add_message net_id chan m) = true
intrudes (set_active_net net_id) = true
intrudes (set_active_chan net_id chan) = true
intrudes _ = false

abbrev pub Quiet : List Action → Type 0
Quiet [] = Unit
Quiet (a ∷ as') = (intrudes a ≡ false) × Quiet as'

Quiet-append : (as' bs : List Action) → Quiet as' → Quiet bs → Quiet (as' ++ bs)
Quiet-append [] bs q r = r
Quiet-append (a ∷ as') bs q r = (q.0, Quiet-append as' bs q.1 r)

-- While the network's messages are held, only quiet actions, and they are still held afterwards.
pub record Holds (net_id : Text) (f : Step) : Type 0 where
  at :
      (bufs : Dict Buffer)
      → has_key net_id bufs ≡ true
      → Quiet (f bufs).1 × (has_key net_id (f bufs).0 ≡ true)

module _ (net_id : Text) where
  pub Holds-emit : (a : Action) → intrudes a ≡ false → Holds net_id (emit a)
  Holds-emit a q = record { at = λ bufs h. ((q, tt), h) }

  pub Holds-add_keyed : (key chan : Text) (m : Message) → Holds net_id (add_keyed net_id key chan m)
  Holds-add_keyed key chan m = record {
    at = λ bufs h. elim (Option-cases (lookup net_id bufs)) [
      | inl e ↦ let g : false ≡ true = rw (has_key-lookup net_id bufs, e) at h in cc
      | inr (buf, e) ↦
          unfold add_keyed in
          rw (e, add_keyed) (tt, rw (has_key-lookup net_id, lookup-put_self) refl)
    ];
  }

  pub quiet-in_turn :
      (fs : List Step)
      → All (Holds net_id) fs
      → (bufs : Dict Buffer) → has_key net_id bufs ≡ true
      → Quiet (in_turn fs bufs).1
  unfolding in_turn
  quiet-in_turn [] hs bufs h = tt
  quiet-in_turn (f ∷ fs) hs bufs h =
      let (q, k) = hs.0.at bufs h in
      Quiet-append (f bufs).1 (in_turn fs (f bufs).0).1 q (quiet-in_turn fs hs.1 (f bufs).0 k)
