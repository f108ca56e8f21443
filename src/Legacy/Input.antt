-- ===== src/Legacy/Input.antt =====
-- `InputBar` of KoreChat.jsx: the input line with its history.
use korechat.Common.{
  ℕ, zero, suc, ◌+◌, ◌-◌, ◌++◌, ◌∷◌, [], Text, lit, starts_with, is_empty, trim, keep, List, length,
  take, get_elem?, get_or_else, Bool, false, ◌&&◌, min, if◌then◌else◌,
}

unfoldable pub commands : List Text
commands =
    lit "/join"
    ∷ lit "/part"
    ∷ lit "/topic"
    ∷ lit "/nick"
    ∷ lit "/away"
    ∷ lit "/back"
    ∷ lit "/me"
    ∷ lit "/msg"
    ∷ lit "/names"
    ∷ lit "/quit"
    ∷ lit "/list"
    ∷ []

pub record Bar : Type 0 where
  pub val : Text
  pub hist : List Text
  -- `histIdx + 1`
  pub hist_pos : ℕ
  pub show_cmds : Bool

-- A key, a new text, or a click on a suggestion.
pub data Event : Type 0 where
  change click : Text → Event
  enter arrow_up arrow_down escape : Event

-- `filtered`
unfoldable pub filtered : Text → List Text
unfolding commands
filtered val = keep (λ c. starts_with val (lit "/") && starts_with c val) commands

-- `setHistIdx(n); setVal(n === -1 ? "" : hist[n] || "")`; `hist[-1]` is undefined.
unfoldable pub recall : ℕ → Bar → Bar
recall zero b = record b { hist_pos = 0; val = [] }
recall (suc n) b = record b { hist_pos = suc n; val = get_or_else (get_elem? b.hist n) [] }

-- The state, and what is handed to `onSend`.
unfoldable pub submit : Bar → Bar × List Text
submit b =
    let v = trim b.val in
    if is_empty v
    then (b, [])
    else (record { val = []; hist = v ∷ take 49 b.hist; hist_pos = 0; show_cmds = false }, v ∷ [])

unfoldable pub step : Event → Bar → Bar × List Text
unfolding recall submit
step (change v) b = (record b { val = v; show_cmds = starts_with v (lit "/") }, [])
step (click cmd) b = (record b { val = cmd ++ lit " "; show_cmds = false }, [])
step enter b = submit b
step arrow_up b = (recall (min (b.hist_pos + 1) (length b.hist)) b, [])
step arrow_down b = (recall (b.hist_pos - 1) b, [])
step escape b = (record b { show_cmds = false }, [])
