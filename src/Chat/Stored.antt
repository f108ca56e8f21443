-- ===== src/Chat/Stored.antt =====
-- The invariant of the message store under `reducer` (frontend/app.jsx), and its laws on lists.
pub mod Added
pub mod Prepended
pub mod Sessions
use korechat.Common.{
  ℕ, zero, suc, ◌+◌, ◌≤◌, ◌++◌, ◌∷◌, [], ◌≡◌, refl, sym, ◌≢◌, inl, inr, Text, text_eq, text_eq_iff,
  text_eq_refl, is_empty, starts_with, Dict, lookup, put, remove, reject_keys, lookup-put,
  lookup-remove, lookup-reject_keys, set_has, set_add, set_has-set_add, List, length, last_n,
  length-last_n, drop, length-append, All, All-append, All-drop, All-last_n, All-imp, map, Bool,
  true, false, not, ◌&&◌, ◌||◌, some, none, get_or_else, if◌then◌else◌, leb, arith, Bool-cases,
}
use korechat.Common.Sorting.{insert, sort_by, All-sort_by, length-sort_by}
use korechat.Chat.{
  State, Action, Message, Clock, init, chan_key, net_prefix, messages_at, net_add, net_update,
  net_remove, net_del, net_status, net_reorder, set_nick, set_active_net, set_active_chan,
  chan_join, chan_part, chan_rejoin, chan_part_remove, set_topic, set_members, replace_members,
  set_member_prefix, del_member, add_msg, prepend_msgs, replay_start, replay_done, sort_msgs,
  clear_unread, set_presence,
}
use korechat.Chat.Networks
use korechat.Chat.Channels
use korechat.Chat.Messages
use korechat.Chat.Messages.{
  fresh, time_key, fingerprint, store_msg, sort_network, prepend_kept, is_duplicate,
}
use korechat.Chat.Messages.Dedup.{messages_at-store_msg}
use korechat.Chat.Reducer.{reducer, run}

-- The id of a message, if it has one, is among the ids seen.
abbrev pub IsKnown : List Text → Message → Type 0
IsKnown seen m = is_empty m.id ≡ false → set_has m.id seen ≡ true

-- Two messages do not share an id.
abbrev pub Apart : Message → Message → Type 0
Apart m m' = is_empty m.id ≡ false → m.id ≢ m'.id

abbrev pub Distinct : List Message → Type 0
Distinct [] = Unit
Distinct (m ∷ ms) = All (Apart m) ms × Distinct ms

-- What holds of the messages of one channel.
pub record IsStored (seen : List Text) (ms : List Message) : Type 0 where
  pub capped : length ms ≤ 1000
  pub known : All (IsKnown seen) ms
  pub distinct : Distinct ms

pub record IsValid (s : State) : Type 0 where
  pub at : (k : Text) → IsStored s.seen_msg_ids (messages_at k s)

pub nil-IsStored : (seen : List Text) → IsStored seen []
nil-IsStored seen = record { capped = omega arith; known = tt; distinct = tt }

pub init-IsValid : IsValid init
unfolding lookup
init-IsValid = record { at = λ k. nil-IsStored [] }

pub Apart-sym : (m m' : Message) → Apart m m' → Apart m' m
Apart-sym m m' h e p = h (rw (← p) e) (sym p)

pub All-Apart-sym : (m : Message) (ms : List Message) → All (Apart m) ms → All (λ x. Apart x m) ms
All-Apart-sym m = All-imp (λ x. Apart-sym m x)

pub Distinct-append_last :
    (ms : List Message) (m : Message)
    → Distinct ms
    → All (λ x. Apart x m) ms
    → Distinct (ms ++ m ∷ [])
Distinct-append_last [] m d h = (tt, tt)
Distinct-append_last (x ∷ ms) m d h =
    (All-append (Apart x) ms (m ∷ []) d.0 (h.0, tt), Distinct-append_last ms m d.1 h.1)

pub Distinct-append :
    (xs ys : List Message)
    → Distinct xs
    → Distinct ys
    → All (λ x. All (Apart x) ys) xs
    → Distinct (xs ++ ys)
Distinct-append [] ys d e h = e
Distinct-append (x ∷ xs) ys d e h =
    (All-append (Apart x) xs ys d.0 h.0, Distinct-append xs ys d.1 e h.1)

pub Distinct-drop : (n : ℕ) (ms : List Message) → Distinct ms → Distinct (drop n ms)
Distinct-drop zero ms d = d
Distinct-drop (suc n) [] d = tt
Distinct-drop (suc n) (m ∷ ms) d = Distinct-drop n ms d.1

pub Distinct-last_n : (n : ℕ) (ms : List Message) → Distinct ms → Distinct (last_n n ms)
unfolding last_n
Distinct-last_n n ms d = Distinct-drop _ ms d

module _ (key : Message → ℕ) where
  pub All-insert :
      (P : Message → Type 0) (x : Message) (xs : List Message)
      → P x
      → All P xs
      → All P (insert key x xs)
  unfolding insert
  All-insert P x [] p h = (p, tt)
  All-insert P x (y ∷ ys) p h = elim (Bool-cases (leb (key x) (key y))) [
    | inl e ↦ rw e (p, h)
    | inr e ↦ rw e (h.0, All-insert P x ys p h.1)
  ]

  pub Distinct-insert :
      (x : Message) (xs : List Message)
      → All (Apart x) xs
      → Distinct xs
      → Distinct (insert key x xs)
  unfolding insert
  Distinct-insert x [] h d = (tt, tt)
  Distinct-insert x (y ∷ ys) h d = elim (Bool-cases (leb (key x) (key y))) [
    | inl e ↦ rw e (h, d)
    | inr e ↦ rw e (All-insert (Apart y) x ys (Apart-sym x y h.0) d.0, Distinct-insert x ys h.1 d.1)
  ]

  pub Distinct-sort_by : (xs : List Message) → Distinct xs → Distinct (sort_by key xs)
  unfolding sort_by
  Distinct-sort_by [] d = tt
  Distinct-sort_by (x ∷ xs) d =
      Distinct-insert x (sort_by key xs) (All-sort_by key (Apart x) xs d.0)
        (Distinct-sort_by xs d.1)

  pub IsStored-sort_by :
      (seen : List Text) (ms : List Message) → IsStored seen ms → IsStored seen (sort_by key ms)
  IsStored-sort_by seen ms h = record {
    capped = rw length-sort_by h.capped;
    known = All-sort_by key (IsKnown seen) ms h.known;
    distinct = Distinct-sort_by ms h.distinct;
  }

-- A longer set of seen ids.
abbrev pub Grows : List Text → List Text → Type 0
Grows seen seen' = (x : Text) → set_has x seen ≡ true → set_has x seen' ≡ true

pub Grows-set_add : (y : Text) (seen : List Text) → Grows seen (set_add y seen)
Grows-set_add y seen x h = rw set_has-set_add (ground (arith))

pub IsStored-Grows :
    (seen seen' : List Text) (ms : List Message)
    → Grows seen seen'
    → IsStored seen ms
    → IsStored seen' ms
IsStored-Grows seen seen' ms g h = record {
  capped = h.capped;
  known = All-imp (λ m k e. g m.id (k e)) ms h.known;
  distinct = h.distinct;
}

pub IsStored-last_n :
    (seen : List Text) (ms : List Message)
    → All (IsKnown seen) ms
    → Distinct ms
    → IsStored seen (last_n 1000 ms)
IsStored-last_n seen ms k d = record {
  capped = length-last_n 1000 ms;
  known = All-last_n (IsKnown seen) 1000 ms k;
  distinct = Distinct-last_n 1000 ms d;
}

-- A message whose id is not seen yet is apart from those whose ids are.
pub Apart-of_known :
    (seen : List Text) (m : Message)
    → (not (is_empty m.id) && set_has m.id seen) ≡ false
    → (x : Message) → IsKnown seen x
    → Apart x m
Apart-of_known seen m new x k e p =
    let k' : set_has m.id seen ≡ true = rw p at (k e) in
    let e' : is_empty m.id ≡ false = rw p at e in ground arith

-- Every channel is well stored.
abbrev pub Good : State → Type 0
Good s = (k : Text) → IsStored s.seen_msg_ids (messages_at k s)
