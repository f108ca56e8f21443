-- ===== src/Sidebar/Cursor.antt =====
-- The cursor of `QuickSwitcherModal` in frontend/app.jsx.
use korechat.Common.{
  ℤ, pos, negsuc, ℕ, zero, suc, ◌+◌, ◌<◌, ◌≢◌, [], ◌∷◌, refl, Text, List, length, get_elem?, ltb,
  Option, none, some, if◌then◌else◌, Bool-cases, inl, inr, arith,
}
use korechat.Sidebar.{Item, filtered}

-- `query` and `cursor`
pub record Switcher : Type 0 where
  pub query : Text
  pub cursor : ℤ

unfoldable pub opened : Switcher
opened = record { query = []; cursor = pos 0 }

pub data Event : Type 0 where
  -- `onChange` of the input with another text, and the effect on `query`
  types : Text → Event
  -- `onKeyDown`
  escape arrow_down arrow_up enter : Event

pub data Effect : Type 0 where
  closes : Effect
  selects : Item → Effect

-- `Math.min(c + 1, n - 1)`
abbrev down_to : ℕ → ℤ → ℤ
down_to zero c = negsuc 0
down_to (suc n) (pos c) = if ltb (c + 1) n then pos (c + 1) else pos n
down_to (suc n) (negsuc zero) = pos 0
down_to (suc n) (negsuc (suc c)) = negsuc c

-- `Math.max(c - 1, 0)`
abbrev up_from : ℤ → ℤ
up_from (pos zero) = pos 0
up_from (pos (suc c)) = pos c
up_from (negsuc c) = pos 0

-- `filtered[cursor]`
abbrev at_cursor : List Item → ℤ → Option Item
at_cursor list (pos c) = get_elem? list c
at_cursor list (negsuc c) = none

abbrev selecting : Option Item → List Effect
selecting none = []
selecting (some i) = selects i ∷ []

-- A step, with all the items of the moment.
unfoldable pub step : List Item → Event → Switcher → Switcher × List Effect
unfolding filtered
step items (types q) s = (record { query = q; cursor = pos 0 }, [])
step items escape s = (s, closes ∷ [])
step items arrow_down s =
    (record s { cursor = down_to (length (filtered s.query items)) s.cursor }, [])
step items arrow_up s = (record s { cursor = up_from s.cursor }, [])
step items enter s = (s, selecting (at_cursor (filtered s.query items) s.cursor))

unfoldable pub run : List Item → List Event → Switcher → Switcher
unfolding step
run items [] s = s
run items (e ∷ es) s = run items es (step items e s).0

-- The cursor is on an item, if there is one.
abbrev pub IsOn : ℕ → ℤ → Type 0
IsOn zero c = Unit
IsOn (suc n) (pos c) = c < suc n
IsOn (suc n) (negsuc c) = c ≢ c

down_to-IsOn : (n : ℕ) (c : ℤ) → IsOn n c → IsOn n (down_to n c)
down_to-IsOn zero c h = tt
down_to-IsOn (suc n) (pos c) h = elim (Bool-cases (ltb (c + 1) n)) [
  | inl e ↦ rw e (ground arith)
  | inr e ↦ rw e (omega arith)
]
down_to-IsOn (suc n) (negsuc c) h = absurd (h refl)

up_from-IsOn : (n : ℕ) (c : ℤ) → IsOn n c → IsOn n (up_from c)
up_from-IsOn zero c h = tt
up_from-IsOn (suc n) (pos zero) h = h
up_from-IsOn (suc n) (pos (suc c)) h = omega arith
up_from-IsOn (suc n) (negsuc c) h = absurd (h refl)

first-IsOn : (n : ℕ) → IsOn n (pos 0)
first-IsOn zero = tt
first-IsOn (suc n) = omega arith

abbrev pub IsPlaced : List Item → Switcher → Type 0
IsPlaced items s = IsOn (length (filtered s.query items)) s.cursor

step-IsPlaced :
    (items : List Item) (e : Event) (s : Switcher)
    → IsPlaced items s
    → IsPlaced items (step items e s).0
unfolding step
step-IsPlaced items (types q) s h = first-IsOn (length (filtered q items))
step-IsPlaced items escape s h = h
step-IsPlaced items arrow_down s h = down_to-IsOn (length (filtered s.query items)) s.cursor h
step-IsPlaced items arrow_up s h = up_from-IsOn (length (filtered s.query items)) s.cursor h
step-IsPlaced items enter s h = h

run-IsPlaced :
    (items : List Item) (es : List Event) (s : Switcher)
    → IsPlaced items s
    → IsPlaced items (run items es s)
unfolding run
run-IsPlaced items [] s h = h
run-IsPlaced items (e ∷ es) s h =
    run-IsPlaced items es (step items e s).0 (step-IsPlaced items e s h)

-- While the items stay the same: whatever is typed and pressed, the cursor is on one of the items that
-- are shown, if there are any.
pub run-opened-IsPlaced :
    (items : List Item) (es : List Event) → IsPlaced items (run items es opened)
unfolding opened
run-opened-IsPlaced items es =
    run-IsPlaced items es (record { query = []; cursor = pos 0 })
      (first-IsOn (length (filtered [] items)))
