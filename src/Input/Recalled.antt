-- ===== src/Input/Recalled.antt =====
-- Walking through the history of the input line (frontend/app.jsx, `InputBar`).
use korechat.Common.{
  ℕ, zero, suc, ◌+◌, ◌-◌, ◌<◌, ◌≡◌, refl, length, Bool, true, false, ◌||◌, is_empty, trim, min,
  arith,
}
use korechat.Input.{Bar, arrow_up, arrow_down, is_nil, submit, recall, step}

recall-recall : (n m : ℕ) (b : Bar) → recall n (recall m b) ≡ recall n b
unfolding recall
recall-recall zero zero b = refl
recall-recall zero (suc m) b = refl
recall-recall (suc n) zero b = refl
recall-recall (suc n) (suc m) b = refl

-- With no suggestions shown and an older line left, ArrowDown after ArrowUp is back at the former
-- position of the history and shows what stands there.
pub arrow_down-arrow_up :
    (d : Bool) (b : Bar)
    → is_nil b.suggest ≡ true
    → b.hist_pos < length b.hist
    → (step d arrow_down (step d arrow_up b).0).0 ≡ recall b.hist_pos b
unfolding step
arrow_down-arrow_up d b e l =
    let m : min (b.hist_pos + 1) (length b.hist) ≡ suc b.hist_pos = omega arith in
    let p : suc b.hist_pos - 1 ≡ b.hist_pos = omega arith in
    rw (e, m) (unfold recall in rw (e, p) (recall-recall b.hist_pos (suc b.hist_pos) b))

-- A line that is sent comes back with the next ArrowUp, trimmed.
pub arrow_up-submit :
    (d : Bool) (b : Bar)
    → (is_empty (trim b.val) || d) ≡ false
    → (step d arrow_up (submit d b).0).0.val ≡ trim b.val
unfolding step submit recall
arrow_up-submit d b e = rw e (ground arith)
