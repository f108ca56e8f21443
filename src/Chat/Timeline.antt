-- ===== src/Chat/Timeline.antt =====
-- SORT_MSGS and PREPEND_MSGS: the order of a channel's messages (frontend/app.jsx, `reducer`).
use mathlib.Core.List.{Perm}
use korechat.Common.{
  ℕ, zero, suc, ◌+◌, ◌-◌, ◌≤◌, ◌++◌, ◌∷◌, [], ◌≡◌, ◌≢◌, refl, Text, text_eq, text_eq_iff,
  text_eq_refl, List, length, length-append, last_n, last_n_of_le, drop, map, lookup-put, false,
  arith, keep, ◌==◌,
}
use korechat.Common.Sorting.{
  sort_by, IsSorted, sort_by-IsSorted, sort_by-perm, length-sort_by, sort_by_stable,
}
use korechat.Chat.{State, Message, Clock, chan_key, messages_at, sort_msgs, prepend_msgs}
use korechat.Chat.Keys.{NoColon, starts_with-chan_key}
use korechat.Chat.Messages
use korechat.Chat.Messages.{time_key, fingerprint, fresh, prepend_kept}
use korechat.Chat.Reducer.{reducer}
use korechat.Chat.Stored.Prepended.{messages_at-sort_msgs}

module _ (clock : Clock) where
  -- In order, the same messages, and those of one time in the order that they had.
  pub record IsTimeline (new old : List Message) : Type 0 where
    pub sorted : IsSorted (time_key clock) new
    pub same : Perm new old
    pub stable :
        (t : ℕ) → keep (λ m. time_key clock m == t) new ≡ keep (λ m. time_key clock m == t) old

  sort_by-IsTimeline : (ms : List Message) → IsTimeline (sort_by (time_key clock) ms) ms
  sort_by-IsTimeline ms = record {
    sorted = sort_by-IsSorted (time_key clock) ms;
    same = sort_by-perm (time_key clock) ms;
    stable = λ t. sort_by_stable (time_key clock) t ms;
  }

  -- For network ids without a colon: after SORT_MSGS each channel of the network has its messages
  -- in the order of their times, those of one time as before, none lost or added, and every channel
  -- of another network has the messages that it had.
  pub reducer-sort_msgs :
      (net_id : Text) (s : State)
      → NoColon net_id
      → ((chan : Text)
          → IsTimeline
              (messages_at (chan_key net_id chan) (reducer clock s (sort_msgs net_id)))
              (messages_at (chan_key net_id chan) s))
        × ((j chan : Text)
            → NoColon j
            → net_id ≢ j
            → messages_at (chan_key j chan) (reducer clock s (sort_msgs net_id))
              ≡ messages_at (chan_key j chan) s)
  unfolding reducer
  reducer-sort_msgs net_id s h = (
    λ chan.
        rw
          (
            messages_at-sort_msgs clock net_id (chan_key net_id chan) s,
            starts_with-chan_key net_id chan net_id h h,
            text_eq_refl net_id,
          )
          (sort_by-IsTimeline (messages_at (chan_key net_id chan) s)),
    λ j chan k ne.
        let e : text_eq net_id j ≡ false = ground (arith, text_eq_iff net_id j) in
        rw (
          messages_at-sort_msgs clock net_id (chan_key j chan) s,
          starts_with-chan_key j chan net_id k h,
          e,
        ),
  )

  IsSorted-drop :
      (n : ℕ) (ms : List Message)
      → IsSorted (time_key clock) ms
      → IsSorted (time_key clock) (drop n ms)
  IsSorted-drop zero ms h = h
  IsSorted-drop (suc n) [] h = tt
  IsSorted-drop (suc n) (m ∷ ms) h = IsSorted-drop n ms h.1

  IsSorted-last_n :
      (n : ℕ) (ms : List Message)
      → IsSorted (time_key clock) ms
      → IsSorted (time_key clock) (last_n n ms)
  unfolding last_n
  IsSorted-last_n n ms h = IsSorted-drop (length ms - n) ms h

  messages_at-prepend_kept :
      (k : Text) (m : Message) (ms : List Message) (ids : List Text) (s : State)
      → messages_at k (prepend_kept clock k (m ∷ ms) ids s)
        ≡ last_n 1000 (sort_by (time_key clock) ((m ∷ ms) ++ messages_at k s))
  unfolding prepend_kept
  messages_at-prepend_kept k m ms ids s = rw (lookup-put, text_eq_refl k)

  -- The messages of `msgs` that PREPEND_MSGS takes.
  abbrev pub taken : Text → Text → List Message → State → List Message
  taken net_id chan msgs s =
      (fresh clock s.seen_msg_ids (map (fingerprint clock) (messages_at (chan_key net_id chan) s))
        msgs).0

  prepend_kept-Timeline :
      (k : Text) (kept : List Message) (ids : List Text) (s : State)
      → kept ≢ []
      → IsSorted (time_key clock) (messages_at k (prepend_kept clock k kept ids s))
        × (length kept + length (messages_at k s) ≤ 1000
            → IsTimeline
                (messages_at k (prepend_kept clock k kept ids s))
                (kept ++ messages_at k s))
  prepend_kept-Timeline k [] ids s ne = absurd (ne refl)
  prepend_kept-Timeline k (m ∷ ms) ids s ne = rw (messages_at-prepend_kept k m ms ids s) (
    IsSorted-last_n 1000 _ (sort_by-IsSorted (time_key clock) ((m ∷ ms) ++ messages_at k s)),
    λ l.
        rw
          (last_n_of_le 1000 (sort_by (time_key clock) ((m ∷ ms) ++ messages_at k s)) (
            omega (
              arith,
              length-sort_by (time_key clock) ((m ∷ ms) ++ messages_at k s),
              length-append (m ∷ ms) (messages_at k s),
            )))
          (sort_by-IsTimeline ((m ∷ ms) ++ messages_at k s)),
  )

  -- If PREPEND_MSGS takes a message at all, the channel's messages are in the order of their times
  -- afterwards, also if they were not before; and if the taken and the old ones are at most 1000
  -- together, they are exactly those, with messages of one time taken before old.
  pub reducer-prepend_msgs :
      (net_id chan : Text) (msgs : List Message) (s : State)
      → taken net_id chan msgs s ≢ []
      → IsSorted
          (time_key clock)
          (messages_at (chan_key net_id chan) (reducer clock s (prepend_msgs net_id chan msgs)))
        × (length (taken net_id chan msgs s) + length (messages_at (chan_key net_id chan) s) ≤ 1000
            → IsTimeline
                (messages_at
                  (chan_key net_id chan)
                  (reducer clock s (prepend_msgs net_id chan msgs)))
                (taken net_id chan msgs s ++ messages_at (chan_key net_id chan) s))
  unfolding reducer Messages.prepend_msgs
  reducer-prepend_msgs net_id chan msgs s ne =
      prepend_kept-Timeline (chan_key net_id chan) (taken net_id chan msgs s) _ s ne
