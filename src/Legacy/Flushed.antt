-- ===== src/Legacy/Flushed.antt =====
-- A replay of KoreChat.jsx from its first message to the flush: `addMsg`, `addSys`,
-- `flushReplayBuffer` and REPLAY_FLUSH together.
pub mod Shown
use korechat.Common.{
  ℕ, ◌++◌, ◌∷◌, [], ◌≡◌, refl, ap, sym, ◌∙◌, Text, text_eq, text_eq_iff, is_empty, Dict, lookup,
  lookup-put, lookup-put_self, lookup-no_key, put, has_key, Unique, Unique-put, set_has, set_add,
  List, last_n, Bool, Bool-cases, true, false, not, ◌&&◌, ◌||◌, Option, none, some, inl, inr,
  if◌then◌else◌, arith, get_or_else,
}
use mathlib.Core.List.{append_assoc}
use korechat.Common.Sorting.{sort_by}
use korechat.Chat.{chan_key}
use korechat.Chat.Keys.{text_eq-chan_key}
use korechat.Legacy.{State, Action, Message, messages_at, replay_flush}
use korechat.Legacy.Cases
use korechat.Legacy.Reducer.{reducer, run}
use korechat.Legacy.Replay.{
  Step, Buffer, hold, buffer_add, in_turn, add_keyed, flush, sorted, time_key,
}

-- A message that a replay brings, with the key that tells copies of it and its channel.
pub record Item : Type 0 where
  pub key : Text
  pub chan : Text
  pub msg : Message

-- The first of each key, and all without one.
abbrev pub distinct : List Text → List Item → List Item
distinct seen [] = []
distinct seen (i ∷ items) = elim (not (is_empty i.key) && set_has i.key seen) [
  | true ↦ distinct seen items
  | false ↦ i ∷ distinct (if is_empty i.key then seen else set_add i.key seen) items
]

abbrev pub of_chan : Text → List Item → List Message
of_chan chan [] = []
of_chan chan (i ∷ items) =
    let rest = of_chan chan items in if text_eq i.chan chan then i.msg ∷ rest else rest

-- The replay: the messages are handed over one after the other, then the buffer is flushed.
abbrev pub replay : (Text → ℕ) → Text → List Item → List Step
replay millis net_id [] = flush millis net_id ∷ []
replay millis net_id (i ∷ items) = add_keyed net_id i.key i.chan i.msg ∷ replay millis net_id items

abbrev pub buffer_all : List Item → Buffer → Buffer
buffer_all [] buf = buf
buffer_all (i ∷ items) buf = buffer_all items (buffer_add i.key i.chan i.msg buf)

-- What is held for a channel, after more.
abbrev pub extend : Option (List Message) → List Message → Option (List Message)
extend o [] = o
extend o (m ∷ ms) = some (get_or_else o [] ++ m ∷ ms)

extend-cons :
    (o : Option (List Message)) (m : Message) (ms : List Message)
    → extend (some (get_or_else o [] ++ m ∷ [])) ms ≡ extend o (m ∷ ms)
extend-cons o m [] = refl
extend-cons o m (n ∷ ms) = ap some (append_assoc (get_or_else o []) (m ∷ []) (n ∷ ms))

lookup-hold :
    (chan j : Text) (m : Message) (d : Dict (List Message))
    → lookup j (hold chan m d)
      ≡ (if text_eq chan j then some (get_or_else (lookup j d) [] ++ m ∷ []) else lookup j d)
lookup-hold chan j m d = rw (lookup-put chan j) (elim (Bool-cases (text_eq chan j)) [
  | inl e ↦ let same : chan ≡ j = ground (arith, text_eq_iff chan j) in rw (e, same) refl
  | inr e ↦ rw e refl
])

-- Whether a copy of the message was there before.
abbrev is_copy : Item → List Text → Bool
is_copy i seen = not (is_empty i.key) && set_has i.key seen

-- The keys seen after a message.
abbrev seen_after : Item → List Text → List Text
seen_after i seen = if is_empty i.key then seen else set_add i.key seen

buffer_add-copy :
    (i : Item) (buf : Buffer)
    → is_copy i buf.seen_ids ≡ true
    → buffer_add i.key i.chan i.msg buf ≡ buf
unfolding buffer_add
buffer_add-copy i buf e = rw e refl

buffer_add-new :
    (i : Item) (buf : Buffer)
    → is_copy i buf.seen_ids ≡ false
    → buffer_add i.key i.chan i.msg buf
      ≡ record { messages = hold i.chan i.msg buf.messages; seen_ids = seen_after i buf.seen_ids }
unfolding buffer_add
buffer_add-new i buf e = rw e refl

distinct-copy :
    (i : Item) (items : List Item) (seen : List Text)
    → is_copy i seen ≡ true
    → distinct seen (i ∷ items) ≡ distinct seen items
distinct-copy i items seen e = rw (distinct, e) refl

distinct-new :
    (i : Item) (items : List Item) (seen : List Text)
    → is_copy i seen ≡ false
    → distinct seen (i ∷ items) ≡ i ∷ distinct (seen_after i seen) items
distinct-new i items seen e = rw (distinct, e) refl

pub lookup-buffer_all :
    (chan : Text) (items : List Item) (buf : Buffer)
    → lookup chan (buffer_all items buf).messages
      ≡ extend (lookup chan buf.messages) (of_chan chan (distinct buf.seen_ids items))
lookup-buffer_all chan [] buf = refl
lookup-buffer_all chan (i ∷ items) buf =
    let at : Buffer → Option (List Message) = λ b. lookup chan (buffer_all items b).messages in
    elim (Bool-cases (is_copy i buf.seen_ids)) [
      | inl e ↦
          ap at (buffer_add-copy i buf e)
          ∙ rw (distinct-copy i items buf.seen_ids e) (lookup-buffer_all chan items buf)
      | inr e ↦
          ap at (buffer_add-new i buf e)
          ∙ lookup-buffer_all chan items _
          ∙ rw (distinct-new i items buf.seen_ids e, lookup-hold i.chan chan i.msg buf.messages)
              (elim (Bool-cases (text_eq i.chan chan)) [
                | inl f ↦ rw f (extend-cons (lookup chan buf.messages) i.msg _)
                | inr f ↦ rw f refl
              ])
    ]

pub Unique-buffer_all :
    (items : List Item) (buf : Buffer)
    → Unique buf.messages
    → Unique (buffer_all items buf).messages
Unique-buffer_all [] buf u = u
Unique-buffer_all (i ∷ items) buf u =
    Unique-buffer_all items (buffer_add i.key i.chan i.msg buf)
      (elim (Bool-cases (is_copy i buf.seen_ids)) [
        | inl e ↦ rw (buffer_add-copy i buf e) u
        | inr e ↦ rw (buffer_add-new i buf e) (Unique-put i.chan _ buf.messages u)
      ])
