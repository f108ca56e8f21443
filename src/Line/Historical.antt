-- ===== src/Line/Historical.antt =====
-- Lines that arrive inside a CHATHISTORY batch (frontend/app.jsx, `handleLine`).
use korechat.Common.{
  ◌∷◌, [], ◌≡◌, refl, inl, inr, Text, lit, text_eq, text_eq_sound, lookup, set_has, List, Bool,
  true, false, some, Bool-cases, arith, sym, All,
}
use korechat.Client.{Env, Refs}
use korechat.Line.{Ctx, context, in_history}
use korechat.Line.Members.{nick_change, join, part, kick, quit, topic}
use korechat.Line.Modes.{mode}
use korechat.Line.Handle.{
  Verb, nick_, join_, part_, kick_, quit_, topic_, mode_, labels, on_verb, handle_line,
}

-- The commands that change members, topics or modes.
abbrev pub changing : List Text
changing =
    lit "NICK" ∷ lit "JOIN" ∷ lit "PART" ∷ lit "KICK" ∷ lit "QUIT" ∷ lit "TOPIC" ∷ lit "MODE" ∷ []

abbrev is_changing : Verb → Bool
is_changing nick_ = true
is_changing join_ = true
is_changing part_ = true
is_changing kick_ = true
is_changing quit_ = true
is_changing topic_ = true
is_changing mode_ = true
is_changing _ = false

-- The label of a changing command.
Labelled : Text → Type 0
Labelled t = (v : Verb) × (lookup t labels ≡ some v) × (is_changing v ≡ true)

label : (x t : Text) → text_eq x t ≡ true → Labelled x → Labelled t
label x t e l = rw (sym (text_eq_sound x t e)) l

pick : (t : Text) (xs : List Text) → All Labelled xs → set_has t xs ≡ true → Labelled t
unfolding set_has
pick t [] ls h = absurd (ground arith)
pick t (x ∷ xs) ls h = elim (Bool-cases (text_eq x t)) [
  | inl e ↦ label x t e ls.0
  | inr e ↦ pick t xs ls.1 (ground arith)
]

changing-Labelled : All Labelled changing
unfolding Labelled lit lookup text_eq labels
changing-Labelled = (
  (nick_, refl, refl),
  (
    (join_, refl, refl),
    (
      (part_, refl, refl),
      (
        (kick_, refl, refl),
        ((quit_, refl, refl), ((topic_, refl, refl), ((mode_, refl, refl), tt))),
      ),
    ),
  ),
)

on_verb-in_history :
    (c : Ctx) (refs : Refs) (v : Verb)
    → in_history c refs ≡ true
    → is_changing v ≡ true
    → on_verb c refs v ≡ (refs, [])
unfolding on_verb nick_change join part kick quit topic mode
on_verb-in_history c refs nick_ h k = rw h
on_verb-in_history c refs join_ h k = rw h
on_verb-in_history c refs part_ h k = rw h
on_verb-in_history c refs kick_ h k = rw h
on_verb-in_history c refs quit_ h k = rw h
on_verb-in_history c refs topic_ h k = rw h
on_verb-in_history c refs mode_ h k = rw h
on_verb-in_history c refs v h k = absurd (ground arith)

-- A NICK, JOIN, PART, KICK, QUIT, TOPIC or MODE that arrives inside an open CHATHISTORY batch
-- changes nothing, sends nothing and shows nothing.
pub handle_line-in_history :
    (env : Env) (refs : Refs) (net_id raw : Text)
    → in_history (context env refs net_id raw) refs ≡ true
    → set_has (context env refs net_id raw).msg.command changing ≡ true
    → handle_line env refs net_id raw ≡ (refs, [])
unfolding handle_line Labelled
handle_line-in_history env refs net_id raw h k =
    let (v, e, l) = labelled in
    rw (e, handle_line) (on_verb-in_history (context env refs net_id raw) refs v h l)
  where
    labelled :
        (v : Verb) × (lookup (context env refs net_id raw).msg.command labels ≡ some v)
        × (is_changing v ≡ true)
    labelled = pick _ changing changing-Labelled k
