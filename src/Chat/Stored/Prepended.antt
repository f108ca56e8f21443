-- ===== src/Chat/Stored/Prepended.antt =====
-- PREPEND_MSGS and SORT_MSGS of `reducer` (frontend/app.jsx) and the invariant of the message
-- store.
use korechat.Common.{
  ◌++◌, ◌∷◌, [], ◌≡◌, refl, sym, inl, inr, Text, text_eq, text_eq_iff, text_eq_refl, is_empty,
  starts_with, Dict, lookup, lookup-put, set_has, set_add, set_has-set_add, List, last_n, All,
  All-append, All-imp, Bool, true, false, not, ◌&&◌, some, none, get_or_else, if◌then◌else◌, arith,
  Bool-cases,
}
use korechat.Common.Sorting.{sort_by, All-sort_by}
use korechat.Chat.{State, Message, Clock, chan_key, net_prefix, messages_at}
use korechat.Chat.Messages
use korechat.Chat.Messages.{
  fresh, time_key, fingerprint, store_msg, sort_network, prepend_kept, is_duplicate,
}
use korechat.Chat.Stored.{
  IsKnown, Distinct, IsStored, Good, Apart-sym, Distinct-append, Distinct-sort_by, IsStored-sort_by,
  Grows, Grows-set_add, IsStored-Grows, IsStored-last_n, Apart-of_known,
}

module _ (clock : Clock) where
  -- What `fresh` hands over, starting from the ids seen before.
  record IsFresh (seen ids : List Text) (kept : List Message) : Type 0 where
    grows : Grows seen ids
    known : All (IsKnown ids) kept
    distinct : Distinct kept
    new : All (λ m. (not (is_empty m.id) && set_has m.id seen) ≡ false) kept

  IsFresh-nil : (seen : List Text) → IsFresh seen seen []
  IsFresh-nil seen = record { grows = λ x h. h; known = tt; distinct = tt; new = tt }

  -- The ids after a message is noted.
  abbrev noted : Message → List Text → List Text
  noted m seen = if is_empty m.id then seen else set_add m.id seen

  Grows-noted : (m : Message) (seen : List Text) → Grows seen (noted m seen)
  Grows-noted m seen x h = elim (Bool-cases (is_empty m.id)) [
    | inl e ↦ rw e h
    | inr e ↦ rw e (Grows-set_add m.id seen x h)
  ]

  has-noted : (m : Message) (seen : List Text) → IsKnown (noted m seen) m
  has-noted m seen e = rw (e, set_has-set_add) (ground (arith, text_eq_refl m.id))

  -- A test that fails with more ids fails with fewer.
  new_of_Grows :
      (seen seen' : List Text) (m : Message)
      → Grows seen seen'
      → (not (is_empty m.id) && set_has m.id seen') ≡ false
      → (not (is_empty m.id) && set_has m.id seen) ≡ false
  new_of_Grows seen seen' m g h = ground (arith, g m.id)

  IsFresh-skip :
      (m : Message) (seen ids : List Text) (kept : List Message)
      → IsFresh (noted m seen) ids kept
      → IsFresh seen ids kept
  IsFresh-skip m seen ids kept h = record {
    grows = λ x p. h.grows x (Grows-noted m seen x p);
    known = h.known;
    distinct = h.distinct;
    new = All-imp (λ x. new_of_Grows seen _ x (Grows-noted m seen)) kept h.new;
  }

  IsFresh-cons :
      (m : Message) (seen ids : List Text) (kept : List Message)
      → (not (is_empty m.id) && set_has m.id seen) ≡ false
      → IsFresh (noted m seen) ids kept
      → IsFresh seen ids (m ∷ kept)
  IsFresh-cons m seen ids kept new h = record {
    grows = (IsFresh-skip m seen ids kept h).grows;
    known = (λ e. h.grows m.id (has-noted m seen e), h.known);
    distinct = (
      All-imp
          (λ x n.
            Apart-sym x m
              (λ e p. Apart-of_known (noted m seen) x n m (has-noted m seen) (rw p at e) (sym p)))
          kept h.new,
      h.distinct,
    );
    new = (new, (IsFresh-skip m seen ids kept h).new);
  }

  fresh-IsFresh :
      (seen fps : List Text) (ms : List Message)
      → IsFresh seen (fresh clock seen fps ms).1 (fresh clock seen fps ms).0
  unfolding fresh
  fresh-IsFresh seen fps [] = IsFresh-nil seen
  fresh-IsFresh seen fps (m ∷ ms) = elim (Bool-cases (not (is_empty m.id) && set_has m.id seen)) [
    | inl old ↦ rw (old, fresh) (fresh-IsFresh seen fps ms)
    | inr new ↦
        rw (new, fresh)
          (elim (Bool-cases (set_has (fingerprint clock m) fps)) [
            | inl e ↦ rw (e, fresh) (IsFresh-skip m seen _ _ (fresh-IsFresh (noted m seen) fps ms))
            | inr e ↦
                rw (e, fresh)
                  (IsFresh-cons m seen _ _ new
                    (fresh-IsFresh (noted m seen) (set_add (fingerprint clock m) fps) ms))
          ])
  ]

  prepend_kept-IsStored :
      (k : Text) (kept : List Message) (ids : List Text) (s : State)
      → IsFresh s.seen_msg_ids ids kept
      → Good s
      → Good (prepend_kept clock k kept ids s)
  unfolding prepend_kept
  prepend_kept-IsStored k [] ids s f v j = v j
  prepend_kept-IsStored k (m ∷ ms) ids s f v j = rw lookup-put (at_key (text_eq k j))
    where
      old : List Message
      old = messages_at k s

      older : IsStored ids old
      older = IsStored-Grows _ _ old f.grows (v k)

      distinct : Distinct ((m ∷ ms) ++ old)
      distinct = Distinct-append (m ∷ ms) old f.distinct older.distinct (
          All-imp
            (λ x n.
              All-imp (λ y q. Apart-sym y x (Apart-of_known s.seen_msg_ids x n y q)) old
                (v k).known)
            (m ∷ ms) f.new)

      at_key :
          (b : Bool)
          → IsStored ids (
              get_or_else
                (if b
                  then some (last_n 1000 (sort_by (time_key clock) ((m ∷ ms) ++ old)))
                  else lookup j s.messages)
                [])
      at_key true =
          IsStored-last_n ids _
            (All-sort_by (time_key clock) (IsKnown ids) _
              (All-append (IsKnown ids) (m ∷ ms) old f.known older.known))
            (Distinct-sort_by (time_key clock) _ distinct)
      at_key false = IsStored-Grows _ _ _ f.grows (v j)

  pub prepend_msgs-IsStored :
      (net_id chan : Text) (msgs : List Message) (s : State)
      → Good s
      → Good (Messages.prepend_msgs clock net_id chan msgs s)
  unfolding Messages.prepend_msgs
  prepend_msgs-IsStored net_id chan msgs s v =
      prepend_kept-IsStored (chan_key net_id chan) _ _ s (fresh-IsFresh s.seen_msg_ids _ msgs) v

  pub lookup-sort_network :
      (prefix k : Text) (o : Dict (List Message))
      → lookup k (sort_network clock prefix o) ≡ elim (lookup k o) [
        | none ↦ none
        | some ms ↦ some (if starts_with k prefix then sort_by (time_key clock) ms else ms)
      ]
  unfolding lookup sort_network
  lookup-sort_network prefix k [] = refl
  lookup-sort_network prefix k ((j, ms) ∷ o) =
      ground (arith, text_eq_iff j k, lookup-sort_network prefix k o)

  pub messages_at-sort_msgs :
      (net_id k : Text) (s : State)
      → messages_at k (Messages.sort_msgs clock net_id s) ≡ (
          if starts_with k (net_prefix net_id)
          then sort_by (time_key clock) (messages_at k s)
          else messages_at k s)
  unfolding Messages.sort_msgs sort_by
  messages_at-sort_msgs net_id k s =
      ground (arith, lookup-sort_network (net_prefix net_id) k s.messages)

  seen-sort_msgs :
      (net_id : Text) (s : State)
      → (Messages.sort_msgs clock net_id s).seen_msg_ids ≡ s.seen_msg_ids
  unfolding Messages.sort_msgs
  seen-sort_msgs net_id s = refl

  pub sort_msgs-IsStored :
      (net_id : Text) (s : State) → Good s → Good (Messages.sort_msgs clock net_id s)
  sort_msgs-IsStored net_id s v k =
      rw (messages_at-sort_msgs net_id k s, seen-sort_msgs net_id s)
        (elim (Bool-cases (starts_with k (net_prefix net_id))) [
          | inl e ↦ rw e (IsStored-sort_by (time_key clock) _ _ (v k))
          | inr e ↦ rw e (v k)
        ])
