-- ===== src/Legacy/Flushed/Shown.antt =====
-- The flush of a replay of KoreChat.jsx, and what is shown of a channel afterwards.
use korechat.Common.{
  ℕ, ◌++◌, ◌∷◌, [], ◌≡◌, refl, ap, sym, ◌∙◌, Text, text_eq, text_eq_iff, Dict, lookup, lookup-put,
  lookup-put_self, lookup-no_key, put, has_key, Unique, List, last_n, Bool-cases, ◌||◌, Option,
  none, some, inl, inr, arith, get_or_else,
}
use korechat.Common.Sorting.{sort_by}
use korechat.Chat.{chan_key}
use korechat.Chat.Keys.{text_eq-chan_key}
use korechat.Legacy.{State, Action, Message, messages_at, replay_flush}
use korechat.Legacy.Cases
use korechat.Legacy.Reducer.{reducer, run}
use korechat.Legacy.Replay.{Buffer, buffer_add, in_turn, add_keyed, flush, sorted, time_key}
use korechat.Legacy.Flushed.{
  Item, distinct, of_chan, replay, buffer_all, extend, lookup-buffer_all, Unique-buffer_all,
}

module _ (millis : Text → ℕ) where
  -- What is shown of a channel after the flush, in place of `old`.
  abbrev pub flushed : List Message → List Message → List Message
  flushed old [] = old
  flushed old (m ∷ ms) = last_n 500 (sort_by (time_key millis) (m ∷ ms))

  has_key-sorted :
      (chan : Text) (d : Dict (List Message)) → has_key chan (sorted millis d) ≡ has_key chan d
  unfolding sorted has_key
  has_key-sorted chan [] = refl
  has_key-sorted chan ((c, ms) ∷ d) = ap (λ b. text_eq c chan || b) (has_key-sorted chan d)

  Unique-sorted : (d : Dict (List Message)) → Unique d → Unique (sorted millis d)
  unfolding sorted
  Unique-sorted [] u = tt
  Unique-sorted ((c, ms) ∷ d) u = (has_key-sorted c d ∙ u.0, Unique-sorted d u.1)

  -- The messages at a key, if they are to be replaced.
  abbrev over : List Message → Option (List Message) → List Message
  over old none = old
  over old (some ms) = last_n 500 ms

  sorted_at : Option (List Message) → Option (List Message)
  sorted_at none = none
  sorted_at (some ms) = some (sort_by (time_key millis) ms)

  lookup-sorted :
      (chan : Text) (d : Dict (List Message))
      → lookup chan (sorted millis d) ≡ sorted_at (lookup chan d)
  unfolding sorted lookup sorted_at
  lookup-sorted chan [] = refl
  lookup-sorted chan ((c, ms) ∷ d) = elim (Bool-cases (text_eq c chan)) [
    | inl e ↦ rw e refl
    | inr e ↦ rw e (lookup-sorted chan d)
  ]

  at_flush_messages :
      (net_id chan : Text) (d o : Dict (List Message))
      → Unique d
      → get_or_else (lookup (chan_key net_id chan) (Cases.flush_messages net_id d o)) []
        ≡ over (get_or_else (lookup (chan_key net_id chan) o) []) (lookup chan d)
  unfolding Cases.flush_messages lookup
  at_flush_messages net_id chan [] o u = refl
  at_flush_messages net_id chan ((c, ms) ∷ d) o u =
      at_flush_messages net_id chan d _ u.1
      ∙ rw (lookup-put (chan_key net_id c) (chan_key net_id chan), text_eq-chan_key net_id c chan)
          (elim (Bool-cases (text_eq c chan)) [
            | inl e ↦
                let same : c ≡ chan = ground (arith, text_eq_iff c chan) in
                let gone : lookup chan d ≡ none =
                  ap (λ x. lookup x d) (sym same) ∙ lookup-no_key c d u.0 in
                rw (e, gone) refl
            | inr e ↦ rw e refl
          ])

  -- The script leaves nothing held, and dispatches the flush alone.
  replay-flush :
      (net_id : Text) (items : List Item) (bufs : Dict Buffer) (buf : Buffer)
      → lookup net_id bufs ≡ some buf
      → (in_turn (replay millis net_id items) bufs).1
        ≡ replay_flush net_id (sorted millis (buffer_all items buf).messages) ∷ []
  unfolding in_turn
  replay-flush net_id [] bufs buf e = unfold flush in rw (flush, e) refl
  replay-flush net_id (i ∷ items) bufs buf e =
      let next : Buffer = buffer_add i.key i.chan i.msg buf in
      let step : add_keyed net_id i.key i.chan i.msg bufs ≡ (put net_id next bufs, []) =
        unfold add_keyed in rw (add_keyed, e) refl in
      ap (λ (r : Dict Buffer × List Action). r.1 ++ (in_turn (replay millis net_id items) r.0).1)
        step
      ∙ replay-flush net_id items (put net_id next bufs) next (lookup-put_self net_id next bufs)

  -- In the older client: while a network's messages are held in an empty buffer, let any messages
  -- come, for any channels, and then the flush. Afterwards a channel that got some shows the last
  -- 500 of them, stably sorted by their times, with only the first of those that have the same key
  -- that is not empty; a channel of the network that got none shows what it showed.
  pub replay-messages :
      (net_id : Text) (items : List Item) (bufs : Dict Buffer) (s : State) (chan : Text)
      → lookup net_id bufs ≡ some (record { messages = []; seen_ids = [] })
      → messages_at (chan_key net_id chan) (run s (in_turn (replay millis net_id items) bufs).1)
        ≡ flushed (messages_at (chan_key net_id chan) s) (of_chan chan (distinct [] items))
  unfolding run reducer Cases.replay_flush
  replay-messages net_id items bufs s chan e =
      let empty : Buffer = record { messages = []; seen_ids = [] } in
      let d : Dict (List Message) = (buffer_all items empty).messages in
      let u : Unique d = Unique-buffer_all items empty tt in
      let held : lookup chan d ≡ extend none (of_chan chan (distinct [] items)) =
        lookup-buffer_all chan items empty ∙ (unfold lookup in refl) in
      ap (λ as'. messages_at (chan_key net_id chan) (run s as'))
        (replay-flush net_id items bufs empty e)
      ∙ at_flush_messages net_id chan (sorted millis d) s.messages (Unique-sorted d u)
      ∙ rw (lookup-sorted chan d, held) (finish (of_chan chan (distinct [] items)))
    where
      finish :
          (ms : List Message)
          → over (messages_at (chan_key net_id chan) s) (sorted_at (extend none ms))
            ≡ flushed (messages_at (chan_key net_id chan) s) ms
      finish [] = unfold sorted_at in refl
      finish (m ∷ ms) = unfold sorted_at in refl
