-- ===== src/Chat/Messages/Dedup.antt =====
-- ADD_MSG of `reducer` (frontend/app.jsx): what is dropped, what is stored, and what is counted.
use korechat.Common.{
  ◌+◌, ◌++◌, ◌∷◌, [], ◌≡◌, refl, inl, inr, Text, text_eq, text_eq_iff, text_eq_refl, is_empty,
  lookup-put, set_has, List, length, last_n, last_n-append_last, any-append_last, Bool, true, false,
  not, ◌&&◌, if◌then◌else◌, ltb, arith, Bool-cases,
}
use korechat.Chat.{State, Message, Clock, chan_key, messages_at, unread_at}
use korechat.Chat.Messages.{fingerprint, is_duplicate, store_msg, add_msg, is_active}

module _ (clock : Clock) where
  -- A stored message counts as a duplicate of itself in both windows.
  is_duplicate-append_last :
      (b : Bool) (m m' : Message) (xs : List Message)
      → fingerprint clock m' ≡ fingerprint clock m
      → is_duplicate clock b m' (xs ++ m ∷ []) ≡ true
  unfolding is_duplicate
  is_duplicate-append_last true m m' xs e =
      any-append_last _ xs m (rw e (text_eq_refl (fingerprint clock m)))
  is_duplicate-append_last false m m' xs e = elim (Bool-cases (ltb 30 (length (xs ++ m ∷ [])))) [
    | inl h ↦
        rw (h, last_n-append_last 29 xs m)
          (any-append_last _ (last_n 29 xs) m (rw e (text_eq_refl (fingerprint clock m))))
    | inr h ↦ rw h (any-append_last _ xs m (rw e (text_eq_refl (fingerprint clock m))))
  ]

  pub messages_at-store_msg :
      (net_id chan : Text) (m : Message) (s : State) (k : Text)
      → messages_at k (store_msg clock net_id chan m s) ≡ (
          if text_eq (chan_key net_id chan) k
          then last_n 1000 (messages_at (chan_key net_id chan) s ++ m ∷ [])
          else messages_at k s)
  unfolding store_msg
  messages_at-store_msg net_id chan m s k = ground (
    arith,
    lookup-put (chan_key net_id chan) k
        (last_n 1000 (messages_at (chan_key net_id chan) s ++ m ∷ [])) s.messages,
  )

  messages_at-store_msg_self :
      (net_id chan : Text) (m : Message) (s : State)
      → messages_at (chan_key net_id chan) (store_msg clock net_id chan m s)
        ≡ last_n 999 (messages_at (chan_key net_id chan) s) ++ m ∷ []
  messages_at-store_msg_self net_id chan m s =
      rw (messages_at-store_msg net_id chan m s (chan_key net_id chan), text_eq_refl)
        (last_n-append_last 999 _ m)

  -- What is dropped once stays dropped: the two tests of the code on a state.
  abbrev Drops : Text → Text → Message → State → Type 0
  Drops net_id chan m s =
      is_duplicate clock (set_has net_id s.replaying) m (messages_at (chan_key net_id chan) s)
      ≡ true

  add_msg-eq_self :
      (net_id chan : Text) (m : Message) (s : State)
      → Drops net_id chan m s
      → add_msg clock net_id chan m s ≡ s
  unfolding add_msg
  add_msg-eq_self net_id chan m s h = ground arith

  store_msg-Drops :
      (net_id chan : Text) (m m' : Message) (s : State)
      → fingerprint clock m' ≡ fingerprint clock m
      → Drops net_id chan m' (store_msg clock net_id chan m s)
  store_msg-Drops net_id chan m m' s e =
      rw (messages_at-store_msg_self net_id chan m s)
        (is_duplicate-append_last _ m m' (last_n 999 (messages_at (chan_key net_id chan) s)) e)

  Drops-congr :
      (net_id chan : Text) (m m' : Message) (s : State)
      → fingerprint clock m' ≡ fingerprint clock m
      → Drops net_id chan m s
      → Drops net_id chan m' s
  unfolding is_duplicate
  Drops-congr net_id chan m m' s e h = rw e h

  -- After a message whose id is new, or that has none, every message of the same channel with the
  -- same fingerprint is dropped, whatever its own id and the rest of its text.
  pub add_msg-same_fingerprint :
      (net_id chan : Text) (m m' : Message) (s : State)
      → (not (is_empty m.id) && set_has m.id s.seen_msg_ids) ≡ false
      → fingerprint clock m' ≡ fingerprint clock m
      → add_msg clock net_id chan m' (add_msg clock net_id chan m s) ≡ add_msg clock net_id chan m s
  add_msg-same_fingerprint net_id chan m m' s new e = add_msg-eq_self net_id chan m' _ drops
    where
      stored :
          (b : Bool)
          → is_duplicate clock (set_has net_id s.replaying) m (messages_at (chan_key net_id chan) s)
            ≡ b
          → Drops net_id chan m' (add_msg clock net_id chan m s)
      stored true d = rw (add_msg-eq_self net_id chan m s d) (Drops-congr net_id chan m m' s e d)
      stored false d = unfold add_msg in rw (new, d) (store_msg-Drops net_id chan m m' s e)

      drops : Drops net_id chan m' (add_msg clock net_id chan m s)
      drops = stored _ refl

  -- Dispatching a message twice is dispatching it once.
  pub add_msg_idem :
      (net_id chan : Text) (m : Message) (s : State)
      → add_msg clock net_id chan m (add_msg clock net_id chan m s) ≡ add_msg clock net_id chan m s
  add_msg_idem net_id chan m s =
      elim (Bool-cases (not (is_empty m.id) && set_has m.id s.seen_msg_ids)) [
        | inl old ↦ let e : add_msg clock net_id chan m s ≡ s = unfold add_msg in rw old in rw e e
        | inr new ↦ add_msg-same_fingerprint net_id chan m m s new refl
      ]

  -- The unread counts after a message that is not dropped, as its id is new or empty and its
  -- fingerprint not that of a recent one: all are unchanged during a replay; otherwise the message's
  -- channel has 0 if it is active and one more than before if not, and the others are unchanged.
  pub unread-add_msg :
      (net_id chan : Text) (m : Message) (s : State) (k : Text)
      → (not (is_empty m.id) && set_has m.id s.seen_msg_ids) ≡ false
      → is_duplicate clock (set_has net_id s.replaying) m (messages_at (chan_key net_id chan) s)
        ≡ false
      → unread_at k (add_msg clock net_id chan m s) ≡ (
          if set_has net_id s.replaying
          then unread_at k s
          else if text_eq (chan_key net_id chan) k
          then if is_active net_id chan s then 0 else unread_at k s + 1
          else unread_at k s)
  unfolding add_msg store_msg
  unread-add_msg net_id chan m s k new d = ground (
    arith,
    text_eq_iff (chan_key net_id chan) k,
    lookup-put (chan_key net_id chan) k
        (if is_active net_id chan s then 0 else unread_at (chan_key net_id chan) s + 1) s.unread,
  )
