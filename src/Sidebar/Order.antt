-- ===== src/Sidebar/Order.antt =====
-- The order of the networks in the sidebar (frontend/app.jsx): the saved order on the first load, and
-- a network dropped on another.
use korechat.Common.{
  ℕ, zero, suc, ◌++◌, ◌∷◌, [], Text, text_eq, is_empty, set_has, keep, List, not, ◌||◌, Option,
  none, some, if◌then◌else◌,
}

-- `reordered`
unfoldable pub reordered : List Text → List Text → List Text
reordered saved net_ids =
    keep (λ id. set_has id net_ids) saved ++ keep (λ id. not (set_has id saved)) net_ids

abbrev pub next : Option ℕ → Option ℕ
next none = none
next (some n) = some (suc n)

-- `order.indexOf(id)`; `none` is -1
unfoldable pub index_of : Text → List Text → Option ℕ
index_of id [] = none
index_of id (x ∷ xs) = let rest = index_of id xs in if text_eq x id then some 0 else next rest

-- `order.splice(i, 1)`
unfoldable pub remove_at : ℕ → List Text → List Text
remove_at n [] = []
remove_at zero (x ∷ xs) = xs
remove_at (suc n) (x ∷ xs) = x ∷ remove_at n xs

-- `order.splice(i, 0, id)`
unfoldable pub insert_at : ℕ → Text → List Text → List Text
insert_at zero id xs = id ∷ xs
insert_at (suc n) id [] = id ∷ []
insert_at (suc n) id (x ∷ xs) = x ∷ insert_at n id xs

abbrev pub move : Text → Option ℕ → Option ℕ → List Text → Option (List Text)
move from none j order = none
move from (some i) none order = none
move from (some i) (some j) order = some (insert_at j from (remove_at i order))

-- `onDrop` on the header of `target`: the new order, if there is one. `from` is "" when no network is
-- dragged.
unfoldable pub drop : Text → Text → List Text → Option (List Text)
unfolding index_of remove_at insert_at
drop from target order =
    if is_empty from || text_eq from target
    then none
    else move from (index_of from order) (index_of target order) order
