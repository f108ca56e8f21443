-- ===== src/Screen/Grouped.antt =====
-- What the rows of the message list hold.
use korechat.Common.{
  ℕ, zero, suc, ◌≤◌, ◌∷◌, ◌++◌, [], ◌≡◌, ◌∙◌, refl, sym, ap, subst, Text, text_eq, is_empty, length,
  List, All, Bool, true, false, ◌||◌, Option, none, some, Bool-cases, inl, inr, arith,
}
use korechat.Chat.{Message}
use korechat.Screen.Rows.{
  Item, daysep, shown, with_days, Row, separator, group, single, is_membership, gather, rows_from,
  rows, last_of,
}

-- The messages of some items, and of some rows.
abbrev item_messages : List Item → List Message
item_messages [] = []
item_messages (daysep l t ∷ is) = item_messages is
item_messages (shown m ∷ is) = m ∷ item_messages is

abbrev pub row_messages : List Row → List Message
row_messages [] = []
row_messages (separator l t ∷ rs) = row_messages rs
row_messages (group ms ∷ rs) = ms ++ row_messages rs
row_messages (single m prev ∷ rs) = m ∷ row_messages rs

item_messages-with_days :
    (day_of : Text → Text) (ms : List Message) (last_day : Text)
    → item_messages (with_days day_of last_day ms) ≡ ms
unfolding with_days
item_messages-with_days day_of [] last_day = refl
item_messages-with_days day_of (m ∷ ms) last_day =
    elim (Bool-cases (is_empty m.time || text_eq (day_of m.time) last_day)) [
      | inl e ↦ rw e (ap (λ r. m ∷ r) (item_messages-with_days day_of ms last_day))
      | inr e ↦ rw e (ap (λ r. m ∷ r) (item_messages-with_days day_of ms (day_of m.time)))
    ]

-- What is gathered and what is left.
item_messages-gather :
    (is : List Item) → (gather is).0 ++ item_messages (gather is).1 ≡ item_messages is
unfolding gather
item_messages-gather [] = refl
item_messages-gather (daysep l t ∷ is) = refl
item_messages-gather (shown m ∷ is) = elim (Bool-cases (is_membership m)) [
  | inl e ↦ rw e (ap (λ r. m ∷ r) (item_messages-gather is))
  | inr e ↦ rw e
]

length-gather : (is : List Item) → length (gather is).1 ≤ length is
unfolding gather
length-gather [] = omega arith
length-gather (daysep l t ∷ is) = omega arith
length-gather (shown m ∷ is) = elim (Bool-cases (is_membership m)) [
  | inl e ↦ rw e (omega (arith, length-gather is))
  | inr e ↦ rw e (omega arith)
]

rows_membership :
    (fuel : ℕ) (prev : Option Item) (m : Message) (is : List Item)
    → is_membership m ≡ true
    → rows_from (suc fuel) prev (shown m ∷ is)
      ≡ group (m ∷ (gather is).0)
        ∷ rows_from fuel (some (shown (last_of m (gather is).0))) (gather is).1
unfolding rows_from
rows_membership fuel prev m is e = rw (e, rows_from)

rows_single :
    (fuel : ℕ) (prev : Option Item) (m : Message) (is : List Item)
    → is_membership m ≡ false
    → rows_from (suc fuel) prev (shown m ∷ is) ≡ single m prev ∷ rows_from fuel (some (shown m)) is
unfolding rows_from
rows_single fuel prev m is e = rw (e, rows_from)

row_messages-rows_from :
    (fuel : ℕ) (prev : Option Item) (is : List Item)
    → length is ≤ fuel
    → row_messages (rows_from fuel prev is) ≡ item_messages is
unfolding rows_from
row_messages-rows_from zero prev [] h = refl
row_messages-rows_from zero prev (i ∷ is) h = absurd (omega arith)
row_messages-rows_from (suc fuel) prev [] h = refl
row_messages-rows_from (suc fuel) prev (daysep l t ∷ is) h =
    row_messages-rows_from fuel (some (daysep l t)) is (omega arith)
row_messages-rows_from (suc fuel) prev (shown m ∷ is) h = elim (Bool-cases (is_membership m)) [
  | inl e ↦
      ap row_messages (rows_membership fuel prev m is e)
      ∙ ap (λ r. m ∷ (gather is).0 ++ r)
          (row_messages-rows_from fuel (some (shown (last_of m (gather is).0))) (gather is).1
            (omega (arith, length-gather is)))
      ∙ ap (λ r. m ∷ r) (item_messages-gather is)
  | inr e ↦
      ap row_messages (rows_single fuel prev m is e)
      ∙ ap (λ r. m ∷ r) (row_messages-rows_from fuel (some (shown m)) is (omega arith))
]

row_messages-rows : (day_of : Text → Text) (ms : List Message) → row_messages (rows day_of ms) ≡ ms
unfolding rows
row_messages-rows day_of ms =
    row_messages-rows_from (length (with_days day_of [] ms)) none (with_days day_of [] ms)
      (omega arith)
    ∙ item_messages-with_days day_of ms []

-- All the messages of a list are membership messages.
abbrev AreMembership : List Message → Type 0
AreMembership ms = All (λ m. is_membership m ≡ true) ms

-- A group has membership messages only and is followed by none, and a message of its own row is none.
abbrev pub AreGrouped : Bool → List Row → Type 0
AreGrouped behind_group [] = Unit
AreGrouped behind_group (separator l t ∷ rs) = AreGrouped false rs
AreGrouped behind_group (group ms ∷ rs) =
    AreMembership ms × ((behind_group ≡ false) × AreGrouped true rs)
AreGrouped behind_group (single m prev ∷ rs) = (is_membership m ≡ false) × AreGrouped false rs

gather-AreMembership : (is : List Item) → AreMembership (gather is).0
unfolding gather
gather-AreMembership [] = tt
gather-AreMembership (daysep l t ∷ is) = tt
gather-AreMembership (shown m ∷ is) = elim (Bool-cases (is_membership m)) [
  | inl e ↦ rw e (e, gather-AreMembership is)
  | inr e ↦ rw e tt
]

-- No membership message is in front.
abbrev Starts : Bool → List Item → Type 0
Starts false is = Unit
Starts true [] = Unit
Starts true (daysep l t ∷ is) = Unit
Starts true (shown m ∷ is) = is_membership m ≡ false

gather-Starts : (is : List Item) → Starts true (gather is).1
unfolding gather
gather-Starts [] = tt
gather-Starts (daysep l t ∷ is) = tt
gather-Starts (shown m ∷ is) = elim (Bool-cases (is_membership m)) [
  | inl e ↦ rw e (gather-Starts is)
  | inr e ↦ rw e e
]

not_behind :
    (behind_group : Bool) (m : Message) (is : List Item)
    → Starts behind_group (shown m ∷ is)
    → is_membership m ≡ true
    → behind_group ≡ false
not_behind false m is h e = refl
not_behind true m is h e = cc

rows_from-AreGrouped :
    (fuel : ℕ) (behind_group : Bool) (prev : Option Item) (is : List Item)
    → Starts behind_group is
    → AreGrouped behind_group (rows_from fuel prev is)
unfolding rows_from
rows_from-AreGrouped zero b prev is h = tt
rows_from-AreGrouped (suc fuel) b prev [] h = tt
rows_from-AreGrouped (suc fuel) b prev (daysep l t ∷ is) h =
    rows_from-AreGrouped fuel false (some (daysep l t)) is tt
rows_from-AreGrouped (suc fuel) b prev (shown m ∷ is) h = elim (Bool-cases (is_membership m)) [
  | inl e ↦ subst (AreGrouped b) (sym (rows_membership fuel prev m is e)) (
    (e, gather-AreMembership is),
    (
      not_behind b m is h e,
      rows_from-AreGrouped fuel true (some (shown (last_of m (gather is).0))) (gather is).1
          (gather-Starts is),
    ),
  )
  | inr e ↦
      subst (AreGrouped b) (sym (rows_single fuel prev m is e))
        (e, rows_from-AreGrouped fuel false (some (shown m)) is tt)
]

rows-AreGrouped : (day_of : Text → Text) (ms : List Message) → AreGrouped false (rows day_of ms)
unfolding rows
rows-AreGrouped day_of ms =
    rows_from-AreGrouped (length (with_days day_of [] ms)) false none (with_days day_of [] ms) tt

-- Every message of the window is in exactly one row, in the order of the messages. The groups hold
-- membership messages only, no group follows another, and no membership message has a row of its own.
pub rows_complete :
    (day_of : Text → Text) (ms : List Message)
    → (row_messages (rows day_of ms) ≡ ms) × AreGrouped false (rows day_of ms)
rows_complete day_of ms = (row_messages-rows day_of ms, rows-AreGrouped day_of ms)
