-- ===== src/Sidebar/Manual.antt =====
-- A channel that is dropped on another in the sidebar of frontend/app.jsx, and the sections as they
-- are then shown.
use mathlib.Core.List.{Perm}
use korechat.Chat.{State, Clock, status_chan}
use korechat.Common.{
  ℕ, ◌++◌, ◌∷◌, [], ◌≡◌, ap, subst, Text, text_eq, text_eq_sound, is_empty, Dict, lookup, put,
  set_has, set_has-append, keep, List, get_elem?, Bool, true, false, not, Option, none, some,
  get_or_else, if◌then◌else◌, Bool-cases, inl, inr, arith,
}
use korechat.Sidebar.Order.{index_of, insert_at, remove_at, drop}
use korechat.Sidebar.Ordered.{drop-placed}
use korechat.Sidebar.Sections.{
  all_names, keep_when_filtered, Sections, shown_in, network_sections, network_sections_once,
}
use korechat.Sidebar.Sorts.{
  sort_with, set_has-sort_with, sort_channel_names, set_has-sort_channel_names, index_of-set_has,
}

-- `allN.forEach(n => { if (!order.includes(n)) order.push(n); })`
unfoldable pub push_missing : List Text → List Text → List Text
push_missing order [] = order
push_missing order (n ∷ ns) = push_missing (if set_has n order then order else order ++ n ∷ []) ns

-- `allN`
unfoldable pub channel_names : Text → State → List Text
unfolding all_names
channel_names net_id s = keep (λ n. not (text_eq n status_chan)) (all_names net_id s)

-- `order`, before the move.
unfoldable pub full_order : (Text → Text → Bool) → Text → State → Dict (List Text) → List Text
unfolding push_missing channel_names sort_with
full_order le_name net_id s prev =
    let names = channel_names net_id s in
    push_missing (get_or_else (lookup net_id prev) (sort_with le_name names)) names

abbrev put_if : Text → Option (List Text) → Dict (List Text) → Dict (List Text)
put_if net_id none prev = prev
put_if net_id (some order) prev = put net_id order prev

-- `onDrop` on the channel or the direct message `target`.
unfoldable pub drop_channel :
    (Text → Text → Bool) → Text → Text → Text → State → Dict (List Text) → Dict (List Text)
unfolding drop full_order
drop_channel le_name src target net_id s prev =
    put_if net_id (drop src target (full_order le_name net_id s prev)) prev

push_missing_keeps :
    (x : Text) (order ns : List Text)
    → set_has x order ≡ true
    → set_has x (push_missing order ns) ≡ true
unfolding push_missing
push_missing_keeps x order [] h = h
push_missing_keeps x order (n ∷ ns) h = elim (Bool-cases (set_has n order)) [
  | inl e ↦ rw e (push_missing_keeps x order ns h)
  | inr e ↦
      rw e
        (push_missing_keeps x (order ++ n ∷ []) ns (rw (set_has-append x n order) (ground arith)))
]

push_missing_one :
    (x n : Text) (order : List Text)
    → text_eq n x ≡ true
    → set_has x (if set_has n order then order else order ++ n ∷ []) ≡ true
push_missing_one x n order h = elim (Bool-cases (set_has n order)) [
  | inl e ↦
      let same : n ≡ x = text_eq_sound n x h in rw e (subst (λ y. set_has y order ≡ true) same e)
  | inr e ↦ rw (e, set_has-append x n order, h)
]

push_missing_all :
    (x : Text) (order ns : List Text)
    → set_has x ns ≡ true
    → set_has x (push_missing order ns) ≡ true
unfolding push_missing set_has
push_missing_all x order [] h = cc
push_missing_all x order (n ∷ ns) h = elim (Bool-cases (text_eq n x)) [
  | inl e ↦
      push_missing_keeps x (if set_has n order then order else order ++ n ∷ []) ns
        (push_missing_one x n order e)
  | inr e ↦ push_missing_all x (if set_has n order then order else order ++ n ∷ []) ns (rw e at h)
]

module _ (le_name : Text → Text → Bool) (src target net_id : Text) (s : State)
    (prev : Dict (List Text)) where
  -- The order that a drop makes out of the full one.
  pub record IsPlaced (new : List Text) : Type 0 where
    pub stored : drop_channel le_name src target net_id s prev ≡ put net_id new prev
    pub same : Perm new (full_order le_name net_id s prev)
    pub complete :
        (n : Text)
        → set_has n (channel_names net_id s) ≡ true
        → set_has n (full_order le_name net_id s prev) ≡ true
    pub placed :
        (j : ℕ)
        → index_of target (full_order le_name net_id s prev) ≡ some j
        → get_elem? new j ≡ some src

  full_order_complete :
      (n : Text)
      → set_has n (channel_names net_id s) ≡ true
      → set_has n (full_order le_name net_id s prev) ≡ true
  unfolding full_order
  full_order_complete n h = push_missing_all n _ (channel_names net_id s) h

  drop_moves :
      (order : List Text)
      → is_empty src ≡ false
      → text_eq src target ≡ false
      → set_has src order ≡ true
      → set_has target order ≡ true
      → (new : List Text) × (drop src target order ≡ some new)
  unfolding drop
  drop_moves order e k h h' =
      let (i, f) = index_of-set_has src order h in
      let (j, g) = index_of-set_has target order h' in
      (insert_at j src (remove_at i order), rw (e, k, f, g))

  -- A channel that is dropped on another one of the same network takes the place that the other had in
  -- the full order, which has every channel of the network, and no channel is lost or added.
  pub drop_channel-IsPlaced :
      is_empty src ≡ false
      → text_eq src target ≡ false
      → set_has src (channel_names net_id s) ≡ true
      → set_has target (channel_names net_id s) ≡ true
      → (new : List Text) × IsPlaced new
  unfolding drop_channel
  drop_channel-IsPlaced e k h h' =
      let order = full_order le_name net_id s prev in
      let (new, d) =
        drop_moves order e k (full_order_complete src h) (full_order_complete target h') in
      let (perm, at) = drop-placed src target order new d in
      (
        new,
        record {
          stored = ap (λ o. put_if net_id o prev) d;
          same = perm;
          complete = full_order_complete;
          placed = at;
        },
      )

-- The sections of a network as they are shown, in any of the three modes.
unfoldable pub shown_sections :
    Clock
    → (Text → Text → Bool)
    → Dict Text
    → Dict (List Text)
    → Bool
    → Text
    → Dict (List Text)
    → State
    → Sections
unfolding network_sections sort_with sort_channel_names
shown_sections clock le_name modes orders unread_only net_id starred s =
    network_sections (sort_with le_name) (sort_channel_names clock le_name modes orders net_id s)
      unread_only net_id starred s

-- Every window of a network other than the status window stands in exactly one of the three sections,
-- whatever the mode of sorting and the order that the user made, if the filter for unread windows is
-- off, or it has unread messages, or it is the selected one; and in none otherwise.
pub shown_sections_once :
    (clock : Clock) (le_name : Text → Text → Bool) (modes : Dict Text) (orders : Dict (List Text))
    (unread_only : Bool) (net_id : Text) (starred : Dict (List Text)) (s : State) (n : Text)
    → set_has n (all_names net_id s) ≡ true
    → text_eq n status_chan ≡ false
    → shown_in n (shown_sections clock le_name modes orders unread_only net_id starred s)
      ≡ (if keep_when_filtered unread_only net_id s n then 1 else 0)
unfolding shown_sections
shown_sections_once clock le_name modes orders unread_only net_id starred s =
    network_sections_once (sort_with le_name)
      (sort_channel_names clock le_name modes orders net_id s) (set_has-sort_with le_name)
      (λ n. set_has-sort_channel_names clock le_name modes orders net_id s n) unread_only net_id
      starred s
