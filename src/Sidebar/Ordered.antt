-- ===== src/Sidebar/Ordered.antt =====
-- What the two ways to arrange the networks do to their order.
use mathlib.Core.List.{Perm}
use mathlib.Core.List.Perm
use korechat.Common.{
  ℕ, zero, suc, ◌+◌, ◌≤◌, ◌<◌, ◌++◌, ◌∷◌, [], ◌≡◌, refl, ap, Text, text_eq, text_eq_iff,
  text_eq_refl, is_empty, set_has, keep, List, length, Bool, Bool-cases, true, false, not, ◌&&◌,
  ◌||◌, Option, none, some, get_elem?, inl, inr, arith,
}
use korechat.Sidebar.Order.{reordered, index_of, next, remove_at, insert_at, move, drop}

index_of-get_elem? :
    (id : Text) (xs : List Text) (i : ℕ)
    → index_of id xs ≡ some i
    → (get_elem? xs i ≡ some id) × (i < length xs)
unfolding index_of
index_of-get_elem? id [] i h = cc
index_of-get_elem? id (x ∷ xs) i h = elim (Bool-cases (text_eq x id)) [
  | inl e ↦
      let z : 0 ≡ i = ground arith in
      let same : x ≡ id = ground (arith, text_eq_iff x id) in rw (← z) (ap some same, omega arith)
  | inr e ↦ behind (index_of id xs) (index_of-get_elem? id xs) (rw (e, index_of) at h)
]
  where
    behind :
        (o : Option ℕ)
        → ((j : ℕ) → o ≡ some j → (get_elem? xs j ≡ some id) × (j < length xs))
        → next o ≡ some i
        → (get_elem? (x ∷ xs) i ≡ some id) × (i < suc (length xs))
    behind none ih g = cc
    behind (some j) ih g =
        let same : suc j ≡ i = ground arith in
        let (got, l) = ih j refl in rw (← same) (got, omega arith)

remove_at-perm :
    (i : ℕ) (x : Text) (xs : List Text) → get_elem? xs i ≡ some x → Perm (x ∷ remove_at i xs) xs
unfolding remove_at
remove_at-perm i x [] h = cc
remove_at-perm zero x (y ∷ xs) h = let same : y ≡ x = ground arith in rw same (Perm.refl _)
remove_at-perm (suc i) x (y ∷ xs) h =
    Perm.trans (Perm.swap y x (remove_at i xs)) (Perm.cons y (remove_at-perm i x xs h))

insert_at-perm : (j : ℕ) (x : Text) (xs : List Text) → Perm (insert_at j x xs) (x ∷ xs)
unfolding insert_at
insert_at-perm zero x xs = Perm.refl _
insert_at-perm (suc j) x [] = Perm.refl _
insert_at-perm (suc j) x (y ∷ xs) =
    Perm.trans (Perm.cons y (insert_at-perm j x xs)) (Perm.swap x y xs)

get_elem?-insert_at :
    (j : ℕ) (x : Text) (xs : List Text) → j ≤ length xs → get_elem? (insert_at j x xs) j ≡ some x
unfolding insert_at
get_elem?-insert_at zero x xs l = refl
get_elem?-insert_at (suc j) x [] l = absurd (omega arith)
get_elem?-insert_at (suc j) x (y ∷ xs) l = get_elem?-insert_at j x xs (omega arith)

length-remove_at :
    (i : ℕ) (xs : List Text) → i < length xs → length (remove_at i xs) + 1 ≡ length xs
unfolding remove_at
length-remove_at i [] l = absurd (omega arith)
length-remove_at zero (x ∷ xs) l = omega arith
length-remove_at (suc i) (x ∷ xs) l = omega (arith, length-remove_at i xs (omega arith))

-- A move between two places that the order has.
move-placed :
    (from target : Text) (order new : List Text) (i j : ℕ)
    → index_of from order ≡ some i
    → index_of target order ≡ some j
    → some (insert_at j from (remove_at i order)) ≡ some new
    → Perm new order × (get_elem? new j ≡ some from)
move-placed from target order new i j e f h =
    let made : insert_at j from (remove_at i order) ≡ new = ground arith in
    let (got, l) = index_of-get_elem? from order i e in
    let (there, m) = index_of-get_elem? target order j f in
    let n : length (remove_at i order) + 1 ≡ length order = length-remove_at i order l in
    rw (← made) (
      Perm.trans (insert_at-perm j from (remove_at i order)) (remove_at-perm i from order got),
      get_elem?-insert_at j from (remove_at i order) (omega arith),
    )

-- A network that is dropped on another, if the order changes at all, stands at the place that the
-- other had, and the new order has the same networks.
pub drop-placed :
    (from target : Text) (order new : List Text)
    → drop from target order ≡ some new
    → Perm new order × ((j : ℕ) → index_of target order ≡ some j → get_elem? new j ≡ some from)
unfolding drop
drop-placed from target order new h = elim (Bool-cases (is_empty from || text_eq from target)) [
  | inl t ↦ let bad : none ≡ some new = rw (t, drop) at h in cc
  | inr t ↦ found (index_of from order) (index_of target order) refl refl (rw (t, drop) at h)
]
  where
    found :
        (o p : Option ℕ)
        → index_of from order ≡ o
        → index_of target order ≡ p
        → move from o p order ≡ some new
        → Perm new order × ((j : ℕ) → index_of target order ≡ some j → get_elem? new j ≡ some from)
    found none p e f g = cc
    found (some i) none e f g = cc
    found (some i) (some j) e f g =
        let (same, placed) = move-placed from target order new i j e f g in
        (same, λ j' f'. let at : j ≡ j' = ground arith in rw (← at) placed)

-- No id occurs twice.
abbrev pub NoTwice : List Text → Type 0
NoTwice [] = Unit
NoTwice (x ∷ xs) = (set_has x xs ≡ false) × NoTwice xs

pub set_has-keep :
    (p : Text → Bool) (x : Text) (xs : List Text) → set_has x (keep p xs) ≡ (set_has x xs && p x)
unfolding set_has
set_has-keep p x [] = refl
set_has-keep p x (y ∷ xs) = elim (Bool-cases (text_eq y x)) [
  | inl e ↦
      let same : y ≡ x = ground (arith, text_eq_iff y x) in
      rw same (elim (Bool-cases (p x)) [
        | inl f ↦ rw (f, text_eq_refl x) refl
        | inr f ↦ rw (f, set_has-keep p x xs, f) (ground arith)
      ])
  | inr e ↦ elim (Bool-cases (p y)) [
    | inl f ↦ rw (f, e) (set_has-keep p x xs)
    | inr f ↦ rw (f, e) (set_has-keep p x xs)
  ]
]

NoTwice-keep : (p : Text → Bool) (xs : List Text) → NoTwice xs → NoTwice (keep p xs)
NoTwice-keep p [] n = tt
NoTwice-keep p (x ∷ xs) n = elim (Bool-cases (p x)) [
  | inl f ↦ rw f (rw (set_has-keep p x xs, n.0) refl, NoTwice-keep p xs n.1)
  | inr f ↦ rw f (NoTwice-keep p xs n.1)
]

set_has-append_lists :
    (x : Text) (xs ys : List Text) → set_has x (xs ++ ys) ≡ (set_has x xs || set_has x ys)
unfolding set_has
set_has-append_lists x [] ys = refl
set_has-append_lists x (y ∷ xs) ys = ground (arith, set_has-append_lists x xs ys)

NoTwice-append :
    (xs ys : List Text)
    → NoTwice xs
    → NoTwice ys
    → ((x : Text) → set_has x xs ≡ true → set_has x ys ≡ false)
    → NoTwice (xs ++ ys)
NoTwice-append [] ys n m apart = m
NoTwice-append (x ∷ xs) ys n m apart = (
  rw (set_has-append_lists x xs ys, n.0)
      (apart x (unfold set_has in ground (arith, text_eq_refl x))),
  NoTwice-append xs ys n.1 m (λ y h. apart y (unfold set_has in ground arith)),
)

pub set_has-reordered :
    (saved net_ids : List Text) (x : Text) → set_has x (reordered saved net_ids) ≡ set_has x net_ids
unfolding reordered
set_has-reordered saved net_ids x =
    rw
      (
        set_has-append_lists x,
        set_has-keep (λ id. set_has id net_ids) x saved,
        set_has-keep (λ id. not (set_has id saved)) x net_ids,
      )
      (ground arith)

-- If neither the saved order nor the list of the networks has an id twice, the order after the first
-- load has each known network exactly once and nothing else.
pub reordered_complete :
    (saved net_ids : List Text)
    → NoTwice saved
    → NoTwice net_ids
    → NoTwice (reordered saved net_ids)
      × ((x : Text) → set_has x (reordered saved net_ids) ≡ set_has x net_ids)
unfolding reordered
reordered_complete saved net_ids n m = (
  NoTwice-append _ _ (NoTwice-keep (λ id. set_has id net_ids) saved n)
      (NoTwice-keep (λ id. not (set_has id saved)) net_ids m)
      (λ x h.
        let l : (set_has x saved && set_has x net_ids) ≡ true =
          rw (set_has-keep (λ id. set_has id net_ids) x saved) at h in
        rw (set_has-keep (λ id. not (set_has id saved)) x net_ids) (ground arith)),
  set_has-reordered saved net_ids,
)
