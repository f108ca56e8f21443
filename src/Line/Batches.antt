-- ===== src/Line/Batches.antt =====
-- What a CHATHISTORY batch hands to each window (frontend/app.jsx, `handleLine`, BATCH).
use korechat.Common.{
  ◌++◌, ◌∷◌, [], ◌≡◌, sym, Text, text_eq, text_eq_sound, Dict, lookup, lookup-put, List, Bool-cases,
  inl, inr, get_or_else, if◌then◌else◌,
}
use mathlib.Core.List.{append_assoc, append-nil}
use korechat.Chat.{Message}
use korechat.Line.Privmsg.{by_chan}

-- The messages of one window among those of a batch, in order.
abbrev pub of_window : Text → List (Text × Message) → List Message
of_window chan [] = []
of_window chan ((x, m) ∷ ms) =
    let rest = of_window chan ms in if text_eq x chan then m ∷ rest else rest

abbrev pub at : Text → Dict (List Message) → List Message
at chan o = get_or_else (lookup chan o) []

by_chan-append :
    (chan : Text) (ms : List (Text × Message)) (o : Dict (List Message))
    → at chan (by_chan ms o) ≡ at chan o ++ of_window chan ms
unfolding by_chan
by_chan-append chan [] o = sym (append-nil (at chan o))
by_chan-append chan ((x, m) ∷ ms) o = elim (Bool-cases (text_eq x chan)) [
  | inl e ↦
      rw (by_chan-append chan ms _, lookup-put x chan (at x o ++ m ∷ []) o, e)
        (rw (text_eq_sound x chan e) (append_assoc (at chan o) (m ∷ []) (of_window chan ms)))
  | inr e ↦ rw (by_chan-append chan ms _, lookup-put x chan (at x o ++ m ∷ []) o, e)
]

-- The messages that a batch hands to a window are those of the batch that are for it, all of them
-- and in their order.
pub by_chan_lem :
    (chan : Text) (ms : List (Text × Message)) → at chan (by_chan ms []) ≡ of_window chan ms
by_chan_lem chan ms = unfold lookup in by_chan-append chan ms []
