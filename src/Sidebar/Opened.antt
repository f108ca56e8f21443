-- ===== src/Sidebar/Opened.antt =====
-- What a click in the sidebar of frontend/app.jsx shows, once its actions are reduced.
use korechat.Common.{
  ◌++◌, ◌∷◌, [], ◌≡◌, refl, ap, Text, lit, text_eq, text_eq_refl, Dict, lookup, lookup-put,
  lookup-put_self, has_key, has_key-put, List, Bool, true, false, not, some, if◌then◌else◌,
  Bool-cases, inl, inr,
}
use korechat.Chat.{
  State, Action, Clock, set_active_net, set_active_chan, clear_unread, chan_join, chan_key,
  unread_at,
}
use korechat.Chat.Channels
use korechat.Chat.Reducer.{reducer, run}
use korechat.Client.{Refs, send, ensure_chan}
use korechat.Line.Touched.{dispatched, dispatched-append}
use korechat.Sidebar.Windows.{go_to, message_nick, is_open, toggle_fold}

-- The window is the one that is shown, and is stored.
pub record IsShown (s : State) (net_id chan : Text) : Type 0 where
  pub net : s.active_net ≡ some net_id
  pub window : lookup net_id s.active_chan ≡ some (some chan)
  pub stored : has_key (chan_key net_id chan) s.channels ≡ true

-- A toggle flips its own section and leaves the others.
pub toggle_fold_lem :
    (k j : Text) (c : Dict Bool)
    → is_open j (toggle_fold k c) ≡ (if text_eq k j then not (is_open k c) else is_open j c)
unfolding toggle_fold is_open
toggle_fold_lem k j c = elim (Bool-cases (text_eq k j)) [
  | inl e ↦ rw (lookup-put k j, e)
  | inr e ↦ rw (lookup-put k j, e)
]

dispatched-ensure_chan :
    (refs : Refs) (net_id chan : Text)
    → dispatched (ensure_chan refs net_id chan) ≡ chan_join net_id chan ∷ []
unfolding ensure_chan
dispatched-ensure_chan refs net_id chan = ap (λ as'. chan_join net_id chan ∷ as') (only_sends _ _)
  where
    only_sends :
        (a b : Bool)
        → dispatched
            (if a then if b then send net_id (lit "MONITOR + " ++ chan) ∷ [] else [] else [])
          ≡ []
    only_sends true true = refl
    only_sends true false = refl
    only_sends false b = refl

module _ (clock : Clock) where
  has_key-chan_join :
      (s : State) (net_id chan : Text)
      → has_key (chan_key net_id chan) (reducer clock s (chan_join net_id chan)).channels ≡ true
  unfolding reducer Channels.chan_join
  has_key-chan_join s net_id chan =
      rw (has_key-put (chan_key net_id chan), text_eq_refl (chan_key net_id chan))

  -- The actions that select a stored window.
  selecting :
      (s : State) (net_id chan : Text)
      → has_key (chan_key net_id chan) s.channels ≡ true
      → IsShown
          (run clock s (set_active_net (some net_id) ∷ set_active_chan net_id chan ∷ []))
          net_id
          chan
  unfolding reducer
  selecting s net_id chan h = record {
    net = refl;
    window = lookup-put_self net_id (some chan) s.active_chan;
    stored = h;
  }

  abbrev IsRead : State → Text → Text → Type 0
  IsRead s net_id chan = IsShown s net_id chan × (unread_at (chan_key net_id chan) s ≡ 0)

  abbrev reading : Text → Text → List Action
  reading net_id chan =
      set_active_net (some net_id) ∷ set_active_chan net_id chan ∷ clear_unread net_id chan ∷ []

  reading-IsRead :
      (s : State) (net_id chan : Text)
      → has_key (chan_key net_id chan) s.channels ≡ true
      → IsRead (run clock s (reading net_id chan)) net_id chan
  unfolding reducer
  reading-IsRead s net_id chan h = (
    record { net = refl; window = lookup-put_self net_id (some chan) s.active_chan; stored = h },
    rw (lookup-put_self (chan_key net_id chan) 0 s.unread),
  )

  -- After a click on a window in the sidebar the window is the one that is shown, it is stored, and it
  -- has no unread messages; after "Message" in the menu of a nick the nick's window is shown and stored.
  pub go_to-IsRead :
      (refs : Refs) (s : State) (net_id chan : Text)
      → IsRead (run clock s (dispatched (go_to refs s net_id chan))) net_id chan
        × IsShown (run clock s (dispatched (message_nick s net_id chan))) net_id chan
  unfolding go_to message_nick
  go_to-IsRead refs s net_id chan = elim (Bool-cases (has_key (chan_key net_id chan) s.channels)) [
    | inl e ↦
        rw (e, go_to, message_nick) (reading-IsRead s net_id chan e, selecting s net_id chan e)
    | inr e ↦
        let joined = has_key-chan_join s net_id chan in
        rw (e, go_to, message_nick)
          (
            rw
                (
                  dispatched-append (ensure_chan refs net_id chan),
                  dispatched-ensure_chan refs net_id chan,
                )
                (reading-IsRead (reducer clock s (chan_join net_id chan)) net_id chan joined),
            selecting (reducer clock s (chan_join net_id chan)) net_id chan joined,
          )
  ]
