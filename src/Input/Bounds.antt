-- ===== src/Input/Bounds.antt =====
-- The indices and the length of the history of the input line (frontend/app.jsx, `InputBar`).
use korechat.Common.{
  ℕ, zero, suc, ◌+◌, ◌-◌, ◌≤◌, ◌<◌, ◌∷◌, [], ◌≡◌, Text, length, take, List, Bool, false, not, ◌&&◌,
  ◌||◌, trim, is_empty, text_eq, min, arith, Bool-cases, inl, inr,
}
use korechat.Input.{
  Bar, Event, change, enter, arrow_up, arrow_down, tab, escape, hover, click, new, suggestions,
  suggestion, is_nil, complete, submit, recall, step, Happens,
}

-- At most 100 lines are kept, the position is one of them or none, and a selected suggestion exists.
pub record IsValid (b : Bar) : Type 0 where
  pub bounded : length b.hist ≤ 100
  pub position : b.hist_pos ≤ length b.hist
  pub selected : is_nil b.suggest ≡ false → b.sug_idx < length b.suggest

pub new-IsValid : IsValid new
unfolding new
new-IsValid = record { bounded = omega arith; position = omega arith; selected = λ e. cc }

complete-IsValid : (i : ℕ) (b : Bar) → IsValid b → IsValid (complete i b)
unfolding complete
complete-IsValid i b v = record { bounded = v.bounded; position = v.position; selected = λ e. cc }

length-take-le : (n : ℕ) (xs : List Text) → length (take n xs) ≤ n
length-take-le zero xs = omega arith
length-take-le (suc n) [] = omega arith
length-take-le (suc n) (x ∷ xs) = omega (arith, length-take-le n xs)

submit-IsValid : (d : Bool) (b : Bar) → IsValid b → IsValid (submit d b).0
unfolding submit
submit-IsValid d b v = elim (Bool-cases (is_empty (trim b.val) || d)) [
  | inl e ↦ rw e v
  | inr e ↦ rw e (record {
    bounded = omega (arith, length-take-le 99 b.hist);
    position = omega arith;
    selected = λ q. cc;
  })
]

recall-IsValid : (n : ℕ) (b : Bar) → n ≤ length b.hist → IsValid b → IsValid (recall n b)
unfolding recall
recall-IsValid zero b l v = record {
  bounded = v.bounded;
  position = omega arith;
  selected = v.selected;
}
recall-IsValid (suc n) b l v = record { bounded = v.bounded; position = l; selected = v.selected }

nonempty : (xs : List Text) → is_nil xs ≡ false → 0 < length xs
nonempty [] e = cc
nonempty (x ∷ xs) e = omega arith

-- Every event that can happen keeps the history within 100 lines, the position within the history,
-- and the selected suggestion among those shown.
pub step-IsValid :
    (d : Bool) (e : Event) (b : Bar) → Happens e b → IsValid b → IsValid (step d e b).0
unfolding step
step-IsValid d (change t) b h v = record {
  bounded = v.bounded;
  position = v.position;
  selected = nonempty (suggestions t);
}
step-IsValid d enter b h v =
    elim (Bool-cases
      (not (is_nil b.suggest) && not (text_eq (trim b.val) (suggestion b b.sug_idx)))) [
        | inl e ↦ rw e (complete-IsValid b.sug_idx b v)
        | inr e ↦ rw e (submit-IsValid d b v)
      ]
step-IsValid d arrow_up b h v = elim (Bool-cases (is_nil b.suggest)) [
  | inl e ↦ rw e (recall-IsValid (min (b.hist_pos + 1) (length b.hist)) b (omega arith) v)
  | inr e ↦ rw e (record {
    bounded = v.bounded;
    position = v.position;
    selected = λ q. omega (arith, v.selected e);
  })
]
step-IsValid d arrow_down b h v = elim (Bool-cases (is_nil b.suggest)) [
  | inl e ↦ rw e (recall-IsValid (b.hist_pos - 1) b (omega (arith, v.position)) v)
  | inr e ↦ rw e (record {
    bounded = v.bounded;
    position = v.position;
    selected = λ q. omega (arith, v.selected e);
  })
]
step-IsValid d tab b h v = elim (Bool-cases (is_nil b.suggest)) [
  | inl e ↦ rw e v
  | inr e ↦ rw e (complete-IsValid b.sug_idx b v)
]
step-IsValid d escape b h v = record {
  bounded = v.bounded;
  position = v.position;
  selected = λ e. cc;
}
step-IsValid d (hover i) b h v = record {
  bounded = v.bounded;
  position = v.position;
  selected = λ e. h;
}
step-IsValid d (click i) b h v = complete-IsValid i b v
