-- ===== src/Screen/Scroll.antt =====
-- The scroll position and the badge for new messages of frontend/app.jsx, as a state machine, while the
-- list of messages is on the page.
use korechat.Common.{
  ℕ, ◌+◌, ◌-◌, ◌∷◌, [], ◌≡◌, refl, List, Bool, true, false, ◌||◌, ◌==◌, leb, if◌then◌else◌, arith,
}

pub record View : Type 0 where
  -- `newMsgCount`
  pub new_messages : ℕ
  -- `isAtBottomRef`
  pub at_bottom : Bool
  -- `shouldPinBottomRef`
  pub pinned : Bool
  -- `prevMsgLenRef`
  pub previous : ℕ

abbrev pub opened : View
opened = record { new_messages = 0; at_bottom = true; pinned = false; previous = 0 }

pub data Event : Type 0 where
  -- another channel is selected; the frame that it asked for; the end of its three seconds
  channel_changes frame unpins : Event
  -- an image was loaded, or the content has another height
  resizes : Event
  -- `activeMsgs` has so many messages
  has_messages : ℕ → Event
  -- the user scrolled, to less than 60 pixels from the bottom or not
  scrolls : (at_bottom : Bool) → Event

unfoldable pub scroll_to_bottom : View → View
scroll_to_bottom v = record v { new_messages = 0; at_bottom = true }

unfoldable pub step : Event → View → View
unfolding scroll_to_bottom
step channel_changes v = record v { new_messages = 0; previous = 0; pinned = true }
step frame v = scroll_to_bottom v
step unpins v = record v { pinned = false }
step resizes v = if v.pinned || v.at_bottom then scroll_to_bottom v else v
step (has_messages n) v =
    if n == 0
    then record v { previous = 0 }
    else if leb n v.previous
    then record v { previous = n }
    else if v.at_bottom
    then scroll_to_bottom (record v { previous = n })
    else record v { previous = n; new_messages = v.new_messages + (n - v.previous) }
step (scrolls at_bottom) v = record v {
  at_bottom = at_bottom;
  new_messages = if at_bottom then 0 else v.new_messages;
  pinned = if at_bottom then v.pinned else false;
}

abbrev pub run : List Event → View → View
run [] v = v
run (e ∷ es) v = run es (step e v)

-- At the bottom there is no badge.
abbrev pub IsCalm : View → Type 0
IsCalm v = v.at_bottom ≡ true → v.new_messages ≡ 0

step-IsCalm : (e : Event) (v : View) → IsCalm v → IsCalm (step e v)
unfolding step
step-IsCalm channel_changes v c h = refl
step-IsCalm frame v c h = unfold scroll_to_bottom in refl
step-IsCalm unpins v c h = c h
step-IsCalm resizes v c h = unfold scroll_to_bottom in ground arith
step-IsCalm (has_messages n) v c h = unfold scroll_to_bottom in ground arith
step-IsCalm (scrolls at) v c h = ground arith

run-IsCalm : (es : List Event) (v : View) → IsCalm v → IsCalm (run es v)
run-IsCalm [] v c = c
run-IsCalm (e ∷ es) v c = run-IsCalm es (step e v) (step-IsCalm e v c)

-- After every sequence of events on a new page: while the view is at the bottom the count of new
-- messages is zero.
pub run-opened-IsCalm : (es : List Event) → IsCalm (run es opened)
run-opened-IsCalm es = run-IsCalm es opened (λ h. refl)
