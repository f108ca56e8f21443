-- ===== src/Chat/Stored/Added.antt =====
-- ADD_MSG of `reducer` (frontend/app.jsx) and the invariant of the message store.
use korechat.Common.{
  ◌++◌, ◌∷◌, [], ◌≡◌, inl, inr, Text, text_eq, text_eq_refl, is_empty, set_has, set_has-set_add,
  List, last_n, All, All-append, All-imp, Bool, true, false, not, ◌&&◌, if◌then◌else◌, arith,
  Bool-cases,
}
use korechat.Chat.{State, Message, Clock, chan_key, messages_at}
use korechat.Chat.Messages
use korechat.Chat.Messages.{
  fresh, time_key, fingerprint, store_msg, sort_network, prepend_kept, is_duplicate,
}
use korechat.Chat.Messages.Dedup.{messages_at-store_msg}
use korechat.Chat.Stored.{
  IsKnown, Distinct, IsStored, Good, Distinct-append_last, Grows, Grows-set_add, IsStored-Grows,
  IsStored-last_n, Apart-of_known,
}

module _ (clock : Clock) where
  seen-store_msg :
      (net_id chan : Text) (m : Message) (s : State)
      → Grows s.seen_msg_ids (store_msg clock net_id chan m s).seen_msg_ids
  unfolding store_msg
  seen-store_msg net_id chan m s x h = elim (Bool-cases (is_empty m.id)) [
    | inl e ↦ rw e h
    | inr e ↦ rw e (Grows-set_add m.id s.seen_msg_ids x h)
  ]

  IsKnown-store_msg :
      (net_id chan : Text) (m : Message) (s : State)
      → IsKnown (store_msg clock net_id chan m s).seen_msg_ids m
  unfolding store_msg
  IsKnown-store_msg net_id chan m s e = rw (e, set_has-set_add) (ground (arith, text_eq_refl m.id))

  store_msg-IsStored :
      (net_id chan : Text) (m : Message) (s : State)
      → (not (is_empty m.id) && set_has m.id s.seen_msg_ids) ≡ false
      → Good s
      → Good (store_msg clock net_id chan m s)
  store_msg-IsStored net_id chan m s new v k =
      rw (messages_at-store_msg clock net_id chan m s k) (at_key (text_eq (chan_key net_id chan) k))
    where
      seen' : List Text
      seen' = (store_msg clock net_id chan m s).seen_msg_ids

      old : List Message
      old = messages_at (chan_key net_id chan) s

      known : All (IsKnown seen') (old ++ m ∷ [])
      known =
          All-append (IsKnown seen') old (m ∷ [])
            (IsStored-Grows _ _ old (seen-store_msg net_id chan m s)
              (v (chan_key net_id chan))).known
            (IsKnown-store_msg net_id chan m s, tt)

      distinct : Distinct (old ++ m ∷ [])
      distinct =
          Distinct-append_last old m (v (chan_key net_id chan)).distinct
            (All-imp (Apart-of_known s.seen_msg_ids m new) old (v (chan_key net_id chan)).known)

      at_key :
          (b : Bool) → IsStored seen' (if b then last_n 1000 (old ++ m ∷ []) else messages_at k s)
      at_key true = IsStored-last_n seen' (old ++ m ∷ []) known distinct
      at_key false = IsStored-Grows _ _ _ (seen-store_msg net_id chan m s) (v k)

  pub add_msg-IsStored :
      (net_id chan : Text) (m : Message) (s : State)
      → Good s
      → Good (Messages.add_msg clock net_id chan m s)
  unfolding Messages.add_msg
  add_msg-IsStored net_id chan m s v =
      elim (Bool-cases (not (is_empty m.id) && set_has m.id s.seen_msg_ids)) [
        | inl old ↦ rw old v
        | inr new ↦
            rw new
              (elim (Bool-cases (
                is_duplicate clock (set_has net_id s.replaying) m
                  (messages_at (chan_key net_id chan) s))) [
                    | inl d ↦ rw d v
                    | inr d ↦ rw d (store_msg-IsStored net_id chan m s new v)
                  ])
      ]
