-- ===== src/Input.antt =====
-- `InputBar` of frontend/app.jsx: the input line with its history and its suggestions, as a state
-- machine. Input.Uploads has the uploads of photos and code.
pub mod Bounds
pub mod Recalled
pub mod Uploads
pub mod Uploaded
pub mod Tests
use korechat.Common.{
  ℕ, zero, suc, ◌+◌, ◌-◌, ◌<◌, ◌++◌, ◌∷◌, [], Text, lit, text_eq, starts_with, is_empty, lower,
  trim, keys, keep, List, length, take, get_elem?, get_or_else, Bool, true, false, not, ◌&&◌, ◌||◌,
  min, if◌then◌else◌, ◌==◌,
}
use korechat.Command.Table.{commands}

pub record Bar : Type 0 where
  pub val : Text
  pub hist : List Text
  -- `histIdx + 1`
  pub hist_pos : ℕ
  pub suggest : List Text
  pub sug_idx : ℕ

pub data Event : Type 0 where
  change : Text → Event
  enter arrow_up arrow_down tab escape : Event
  -- the mouse enters a suggestion, or clicks it
  hover click : ℕ → Event

unfoldable pub new : Bar
new = record { val = []; hist = []; hist_pos = 0; suggest = []; sug_idx = 0 }

-- `updateSuggest`
unfoldable pub suggestions : Text → List Text
suggestions v =
    let q = lower v in
    if starts_with v (lit "/")
    then keep (λ c. starts_with c q && not (text_eq c q)) (keys commands)
    else []

-- `suggest[i]`, for an index in range
abbrev pub suggestion : Bar → ℕ → Text
suggestion b i = get_or_else (get_elem? b.suggest i) []

abbrev pub is_nil : List Text → Bool
is_nil [] = true
is_nil (x ∷ xs) = false

-- `setVal(cmd + " "); setSuggest([])`
unfoldable pub complete : ℕ → Bar → Bar
complete i b = record b { val = suggestion b i ++ lit " "; suggest = [] }

-- The state, and what is handed to `onSend`.
unfoldable pub submit : Bool → Bar → Bar × List Text
submit disabled b =
    let v = trim b.val in
    if is_empty v || disabled
    then (b, [])
    else (record b { hist = v ∷ take 99 b.hist; hist_pos = 0; val = []; suggest = [] }, v ∷ [])

-- `setHistIdx(ni); setVal(hist[ni] || "")`, where `hist[-1]` is undefined
unfoldable pub recall : ℕ → Bar → Bar
recall zero b = record b { hist_pos = 0; val = [] }
recall (suc n) b = record b { hist_pos = suc n; val = get_or_else (get_elem? b.hist n) [] }

unfoldable pub step : Bool → Event → Bar → Bar × List Text
unfolding complete submit recall
step disabled (change v) b = (record b { val = v; suggest = suggestions v; sug_idx = 0 }, [])
step disabled enter b =
    if not (is_nil b.suggest) && not (text_eq (trim b.val) (suggestion b b.sug_idx))
    then (complete b.sug_idx b, [])
    else submit disabled b
step disabled arrow_up b =
    if not (is_nil b.suggest)
    then (record b { sug_idx = b.sug_idx - 1 }, [])
    else (recall (min (b.hist_pos + 1) (length b.hist)) b, [])
step disabled arrow_down b =
    if not (is_nil b.suggest)
    then (record b { sug_idx = min (length b.suggest - 1) (b.sug_idx + 1) }, [])
    else (recall (b.hist_pos - 1) b, [])
step disabled tab b = if is_nil b.suggest then (b, []) else (complete b.sug_idx b, [])
step disabled escape b = (record b { suggest = [] }, [])
step disabled (hover i) b = (record b { sug_idx = i }, [])
step disabled (click i) b = (complete i b, [])

-- An event that can happen: the mouse meets only suggestions that are shown.
abbrev pub Happens : Event → Bar → Type 0
Happens (hover i) b = i < length b.suggest
Happens (click i) b = i < length b.suggest
Happens e b = Unit
