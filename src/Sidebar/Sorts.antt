-- ===== src/Sidebar/Sorts.antt =====
-- How the channels of a network are sorted in the sidebar of frontend/app.jsx: by name, by the time of
-- the last message, or by the order that the user made. `le_name` is `a.localeCompare(b) <= 0`.
use mathlib.Core.List.{Perm}
use mathlib.Core.List.Perm
use korechat.Common.Sorting.{sort_by, insert, IsSorted, sort_by-IsSorted, All-sort_by}
use korechat.Common.{
  ℕ, suc, ◌∷◌, [], ◌≡◌, ◌∙◌, refl, ap, Text, lit, text_eq, is_empty, Dict, lookup, set_has, List,
  last, leb, Bool, true, false, ◌||◌, Option, none, some, get_or_else, if◌then◌else◌, Bool-cases,
  All, inl, inr, arith,
}
use korechat.Chat.{State, Clock, Message, chan_key, messages_at}
use korechat.Sidebar.Order.{index_of}

-- `sort` with a comparison, which is stable: `le a b` is that it is at most zero.
module _ (le : Text → Text → Bool) where
  unfoldable pub insert_with : Text → List Text → List Text
  insert_with x [] = x ∷ []
  insert_with x (y ∷ ys) = let rest = insert_with x ys in if le x y then x ∷ y ∷ ys else y ∷ rest

  unfoldable pub sort_with : List Text → List Text
  unfolding insert_with
  sort_with [] = []
  sort_with (x ∷ xs) = insert_with x (sort_with xs)

  insert_with-perm : (x : Text) (xs : List Text) → Perm (insert_with x xs) (x ∷ xs)
  unfolding insert_with
  insert_with-perm x [] = Perm.refl _
  insert_with-perm x (y ∷ ys) = elim (Bool-cases (le x y)) [
    | inl e ↦ rw e (Perm.refl _)
    | inr e ↦ rw e (Perm.trans (Perm.cons y (insert_with-perm x ys)) (Perm.swap x y ys))
  ]

  -- Sorting keeps the names.
  pub sort_with-perm : (xs : List Text) → Perm (sort_with xs) xs
  unfolding sort_with
  sort_with-perm [] = Perm.refl _
  sort_with-perm (x ∷ xs) =
      Perm.trans (insert_with-perm x (sort_with xs)) (Perm.cons x (sort_with-perm xs))

  set_has-insert_with :
      (n x : Text) (xs : List Text) → set_has n (insert_with x xs) ≡ set_has n (x ∷ xs)
  unfolding insert_with set_has
  set_has-insert_with n x [] = refl
  set_has-insert_with n x (y ∷ ys) = ground (arith, set_has-insert_with n x ys)

  pub set_has-sort_with : (n : Text) (xs : List Text) → set_has n (sort_with xs) ≡ set_has n xs
  unfolding sort_with set_has
  set_has-sort_with n [] = refl
  set_has-sort_with n (x ∷ xs) =
      set_has-insert_with n x (sort_with xs) ∙ ap (λ b. text_eq x n || b) (set_has-sort_with n xs)

-- `new Date(msgs[msgs.length-1].time||0).getTime()||0`, and 0 if there are none.
abbrev time_or_zero : Clock → Option Message → ℕ
time_or_zero clock none = 0
time_or_zero clock (some m) = if is_empty m.time then 0 else clock.millis m.time

unfoldable pub last_time : Clock → Text → State → Text → ℕ
last_time clock net_id s n = time_or_zero clock (last (messages_at (chan_key net_id n) s))

-- `tB - tA` is at most zero.
unfoldable pub le_recent : Clock → Text → State → Text → Text → Bool
unfolding last_time
le_recent clock net_id s a b = leb (last_time clock net_id s b) (last_time clock net_id s a)

abbrev le_index : Option ℕ → Option ℕ → Bool → Bool
le_index none none by_name = by_name
le_index none (some j) by_name = false
le_index (some i) none by_name = true
le_index (some i) (some j) by_name = leb i j

-- The comparison of the order that the user made.
unfoldable pub le_manual : (Text → Text → Bool) → List Text → Text → Text → Bool
unfolding index_of
le_manual le_name order a b = le_index (index_of a order) (index_of b order) (le_name a b)

-- `sortChannelNames`
unfoldable pub sort_channel_names :
    Clock
    → (Text → Text → Bool)
    → Dict Text
    → Dict (List Text)
    → Text
    → State
    → List Text
    → List Text
unfolding le_recent le_manual sort_with
sort_channel_names clock le_name modes orders net_id s names =
    let mode = get_or_else (lookup net_id modes) (lit "alpha") in
    if text_eq mode (lit "recent")
    then sort_with (le_recent clock net_id s) names
    else if text_eq mode (lit "manual")
    then sort_with (le_manual le_name (get_or_else (lookup net_id orders) [])) names
    else sort_with le_name names

-- In each of the three modes the same names are shown.
pub set_has-sort_channel_names :
    (clock : Clock) (le_name : Text → Text → Bool) (modes : Dict Text) (orders : Dict (List Text))
    (net_id : Text) (s : State) (n : Text) (names : List Text)
    → set_has n (sort_channel_names clock le_name modes orders net_id s names) ≡ set_has n names
unfolding sort_channel_names
set_has-sort_channel_names clock le_name modes orders net_id s n names =
    by_mode (text_eq mode (lit "recent")) (text_eq mode (lit "manual"))
  where
    mode : Text
    mode = get_or_else (lookup net_id modes) (lit "alpha")

    by_mode :
        (b c : Bool)
        → set_has n (
            if b
            then sort_with (le_recent clock net_id s) names
            else if c
            then sort_with (le_manual le_name (get_or_else (lookup net_id orders) [])) names
            else sort_with le_name names)
          ≡ set_has n names
    by_mode true c = set_has-sort_with (le_recent clock net_id s) n names
    by_mode false true =
        set_has-sort_with (le_manual le_name (get_or_else (lookup net_id orders) [])) n names
    by_mode false false = set_has-sort_with le_name n names

pub index_of-set_has :
    (x : Text) (xs : List Text) → set_has x xs ≡ true → (i : ℕ) × (index_of x xs ≡ some i)
unfolding set_has index_of
index_of-set_has x [] h = cc
index_of-set_has x (y ∷ ys) h = elim (Bool-cases (text_eq y x)) [
  | inl e ↦ (0, rw e)
  | inr e ↦ let (i, k) = index_of-set_has x ys (ground arith) in (suc i, rw (e, k))
]

-- The place of a name in the order that the user made.
abbrev pub place : List Text → Text → ℕ
place order n = get_or_else (index_of n order) 0

-- The user's order has the name.
abbrev pub In : List Text → Text → Type 0
In order n = set_has n order ≡ true

le_manual-place :
    (le_name : Text → Text → Bool) (order : List Text) (a b : Text)
    → In order a
    → In order b
    → le_manual le_name order a b ≡ leb (place order a) (place order b)
unfolding le_manual
le_manual-place le_name order a b h k =
    let (i, e) = index_of-set_has a order h in let (j, f) = index_of-set_has b order k in rw (e, f)

module _ (le_name : Text → Text → Bool) (order : List Text) where
  insert_manual :
      (x : Text) (xs : List Text)
      → In order x
      → All (In order) xs
      → insert_with (le_manual le_name order) x xs ≡ insert (place order) x xs
  unfolding insert_with insert
  insert_manual x [] h hs = refl
  insert_manual x (y ∷ ys) h hs =
      rw (le_manual-place le_name order x y h hs.0, insert_manual x ys h hs.1)

  sort_manual :
      (xs : List Text)
      → All (In order) xs
      → sort_with (le_manual le_name order) xs ≡ sort_by (place order) xs
  unfolding sort_with sort_by
  sort_manual [] h = refl
  sort_manual (x ∷ xs) h =
      rw (sort_manual xs h.1) (
        insert_manual x (sort_by (place order) xs) h.0
          (All-sort_by (place order) (In order) xs h.1))

  -- Names that are all in the user's order are shown in that order.
  pub sort_manual-IsSorted :
      (xs : List Text)
      → All (In order) xs
      → IsSorted (place order) (sort_with (le_manual le_name order) xs)
  sort_manual-IsSorted xs h = rw (sort_manual xs h) (sort_by-IsSorted (place order) xs)
