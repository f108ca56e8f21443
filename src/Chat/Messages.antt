-- ===== src/Chat/Messages.antt =====
-- The cases of `reducer` on messages and unread counts (frontend/app.jsx). `clock` stands for the
-- built-in `Date`.
pub mod Dedup
use korechat.Common.{
  ℕ, ◌+◌, ◌++◌, ◌∷◌, [], Text, lit, text_eq, starts_with, is_empty, Dict, lookup, put, set_has,
  set_add, List, length, take, last_n, any, map, Bool, true, false, not, ◌&&◌, Option, none, some,
  get_or_else, if◌then◌else◌, ltb,
}
use korechat.Common.Sorting.{sort_by}
use korechat.Chat.{
  State, Message, Clock, net_prefix, chan_key, messages_at, unread_at, active_chan_of,
}

abbrev is_some_text : Option Text → Text → Bool
is_some_text none t = false
is_some_text (some s) t = text_eq s t

-- `s.activeNet===netId && s.activeChan[netId]===chan`
unfoldable pub is_active : Text → Text → State → Bool
is_active net_id chan s =
    is_some_text s.active_net net_id && is_some_text (active_chan_of net_id s) chan

module _ (clock : Clock) where
  -- `${m.nick}|${minute}|${first 40 characters}`; a missing nick prints as "undefined".
  unfoldable pub fingerprint : Message → Text
  fingerprint m =
      get_or_else m.nick (lit "undefined")
      ++ (b'|' ∷ ((if is_empty m.time then [] else clock.minute m.time) ++ (b'|' ∷ take 40 m.text)))

  unfoldable pub time_key : Message → ℕ
  time_key m = clock.millis m.time

  -- The stored messages that a new one is compared with.
  unfoldable pub recent : Bool → List Message → List Message
  recent replaying existing =
      if replaying
      then existing
      else if ltb 30 (length existing)
      then last_n 30 existing
      else existing

  unfoldable pub is_duplicate : Bool → Message → List Message → Bool
  unfolding recent
  is_duplicate replaying msg existing =
      any (λ m. text_eq (fingerprint m) (fingerprint msg)) (recent replaying existing)

  -- The last part of ADD_MSG: the message is stored and counted.
  unfoldable pub store_msg : Text → Text → Message → State → State
  store_msg net_id chan msg s =
      let k = chan_key net_id chan in
      record s {
        messages = put k (last_n 1000 (messages_at k s ++ msg ∷ [])) s.messages;
        seen_msg_ids = if is_empty msg.id then s.seen_msg_ids else set_add msg.id s.seen_msg_ids;
        unread =
            if set_has net_id s.replaying
            then s.unread
            else put k (if is_active net_id chan s then 0 else unread_at k s + 1) s.unread;
      }

  unfoldable pub add_msg : Text → Text → Message → State → State
  add_msg net_id chan msg s =
      if not (is_empty msg.id) && set_has msg.id s.seen_msg_ids
      then s
      else if is_duplicate (set_has net_id s.replaying) msg (messages_at (chan_key net_id chan) s)
      then s
      else store_msg net_id chan msg s

  -- The `filter` of PREPEND_MSGS, with the two sets that its callback adds to: what is kept, and
  -- the ids seen at the end.
  unfoldable pub fresh : List Text → List Text → List Message → List Message × List Text
  fresh seen fps [] = ([], seen)
  fresh seen fps (m ∷ ms) = elim (not (is_empty m.id) && set_has m.id seen) [
    | true ↦ fresh seen fps ms
    | false ↦
        let seen' = if is_empty m.id then seen else set_add m.id seen in
        elim (set_has (fingerprint m) fps) [
          | true ↦ fresh seen' fps ms
          | false ↦
              let (kept, ids) = fresh seen' (set_add (fingerprint m) fps) ms in (m ∷ kept, ids)
        ]
  ]

  unfoldable pub prepend_kept : Text → List Message → List Text → State → State
  prepend_kept k [] ids s = s
  prepend_kept k (m ∷ ms) ids s = record s {
    messages = put k (last_n 1000 (sort_by time_key ((m ∷ ms) ++ messages_at k s))) s.messages;
    seen_msg_ids = ids;
  }

  unfoldable pub prepend_msgs : Text → Text → List Message → State → State
  unfolding prepend_kept
  prepend_msgs net_id chan msgs s =
      let k = chan_key net_id chan in
      let (kept, ids) = fresh s.seen_msg_ids (map fingerprint (messages_at k s)) msgs in
      prepend_kept k kept ids s

  -- `updated[k] = [...updated[k]].sort(…)` at each key of the network
  unfoldable pub sort_network : Text → Dict (List Message) → Dict (List Message)
  sort_network prefix [] = []
  sort_network prefix ((k, ms) ∷ o) =
      (k, if starts_with k prefix then sort_by time_key ms else ms) ∷ sort_network prefix o

  unfoldable pub sort_msgs : Text → State → State
  unfolding sort_network
  sort_msgs net_id s = record s { messages = sort_network (net_prefix net_id) s.messages }
