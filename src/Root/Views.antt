-- ===== src/Root/Views.antt =====
-- Who sees which view, and which theme a reload would show.
use korechat.Common.{
  ℕ, zero, suc, ◌∷◌, [], ◌<◌, ◌%◌, get_elem?, get_or_else, ◌≡◌, ◌∙◌, refl, sym, ap, Text, lit,
  text_eq, is_empty, or_text, List, Bool, true, false, not, ◌&&◌, Option, none, some, Bool-cases,
  inl, inr, arith,
}
use korechat.Root.{
  View, loading, setup, login, chat, admin, User, App, themes, is_theme, started, next_theme,
  Loaded, needed, known, thrown, Event, loaded, entered, logged_out, opens_admin, goes_back,
  toggles, picks, persist, take_theme, on_loaded, can, step, run, index_after,
}

-- The views of a user.
abbrev is_inside : View → Bool
is_inside loading = false
is_inside setup = false
is_inside login = false
is_inside chat = true
is_inside admin = true

abbrev is_known : Option User → Bool
is_known none = false
is_known (some user) = true

-- The chat and the administration are shown exactly while there is a user, and the theme is the one
-- that the next load of the page would start with.
pub record IsConsistent (app : App) : Type 0 where
  pub inside : is_inside app.view ≡ is_known app.me
  pub kept : or_text app.stored (lit "dark") ≡ app.theme

or_text_self : (s t : Text) → is_empty s ≡ false → or_text s t ≡ s
unfolding or_text is_empty
or_text_self [] t h = cc
or_text_self (c ∷ s) t h = refl

-- A theme is not the empty text.
is_theme_not_empty : (t : Text) → is_theme t ≡ true → is_empty t ≡ false
unfolding is_theme themes lit text_eq is_empty
is_theme_not_empty [] h = cc
is_theme_not_empty (c ∷ t) h = refl

theme_at : (i : ℕ) → i < 5 → is_theme (get_or_else (get_elem? themes i) []) ≡ true
unfolding is_theme themes lit text_eq
theme_at zero h = refl
theme_at (suc zero) h = refl
theme_at (suc (suc zero)) h = refl
theme_at (suc (suc (suc zero))) h = refl
theme_at (suc (suc (suc (suc zero)))) h = refl
theme_at (suc (suc (suc (suc (suc i))))) h = absurd (omega arith)

-- The next theme is one of the known, also behind one that is not.
next_theme_known : (t : Text) → is_theme (next_theme t) ≡ true
unfolding next_theme
next_theme_known t = theme_at (index_after t themes % 5) (omega arith)

persist-IsConsistent :
    (t : Text) (app : App) → is_theme t ≡ true → IsConsistent app → IsConsistent (persist t app).0
unfolding persist
persist-IsConsistent t app k h = record {
  inside = h.inside;
  kept = or_text_self t (lit "dark") (is_theme_not_empty t k);
}

take_theme-me : (user : User) (app : App) → (take_theme user app).me ≡ app.me
unfolding take_theme
take_theme-me user app = elim (Bool-cases (not (is_empty user.theme) && is_theme user.theme)) [
  | inl e ↦ rw e
  | inr e ↦ rw e
]

abbrev IsKept : App → Type 0
IsKept app = or_text app.stored (lit "dark") ≡ app.theme

take_theme-IsKept : (user : User) (app : App) → IsKept app → IsKept (take_theme user app)
unfolding take_theme
take_theme-IsKept user app h =
    elim (Bool-cases (not (is_empty user.theme) && is_theme user.theme)) [
      | inl e ↦
          rw e (or_text_self user.theme (lit "dark") (is_theme_not_empty user.theme (ground arith)))
      | inr e ↦ rw e h
    ]

can_loaded : (v : View) (l : Loaded) → can v (loaded l) ≡ true → is_inside v ≡ false
unfolding can
can_loaded loading l h = refl
can_loaded setup l h = refl
can_loaded login l h = refl
can_loaded chat l h = cc
can_loaded admin l h = cc

can_open : (v : View) → can v opens_admin ≡ true → is_inside v ≡ true
unfolding can
can_open loading h = cc
can_open setup h = cc
can_open login h = cc
can_open chat h = refl
can_open admin h = refl

can_go_back : (v : View) → can v goes_back ≡ true → is_inside v ≡ true
unfolding can
can_go_back loading h = cc
can_go_back setup h = cc
can_go_back login h = cc
can_go_back chat h = cc
can_go_back admin h = refl

can_pick : (v : View) (t : Text) → can v (picks t) ≡ true → is_theme t ≡ true
unfolding can
can_pick loading t h = cc
can_pick setup t h = cc
can_pick login t h = cc
can_pick chat t h = h
can_pick admin t h = h

pub step-IsConsistent :
    (e : Event) (app : App) → can app.view e ≡ true → IsConsistent app → IsConsistent (step e app).0
unfolding step on_loaded
step-IsConsistent (loaded needed) app k h = record {
  inside = sym (can_loaded app.view needed k) ∙ h.inside;
  kept = h.kept;
}
step-IsConsistent (loaded (known user)) app k h =
    let entering : App = record app { me = some user } in
    record {
      inside = sym (ap is_known (take_theme-me user entering));
      kept = take_theme-IsKept user entering h.kept;
    }
step-IsConsistent (loaded thrown) app k h = record {
  inside = sym (can_loaded app.view thrown k) ∙ h.inside;
  kept = h.kept;
}
step-IsConsistent (entered user) app k h = record { inside = refl; kept = h.kept }
step-IsConsistent logged_out app k h = record { inside = refl; kept = h.kept }
step-IsConsistent opens_admin app k h = record {
  inside = sym (can_open app.view k) ∙ h.inside;
  kept = h.kept;
}
step-IsConsistent goes_back app k h = record {
  inside = sym (can_go_back app.view k) ∙ h.inside;
  kept = h.kept;
}
step-IsConsistent toggles app k h =
    persist-IsConsistent (next_theme app.theme) app (next_theme_known app.theme) h
step-IsConsistent (picks t) app k h = persist-IsConsistent t app (can_pick app.view t k) h

run-IsConsistent : (es : List Event) (app : App) → IsConsistent app → IsConsistent (run es app)
unfolding run
run-IsConsistent [] app h = h
run-IsConsistent (e ∷ es) app h = elim (Bool-cases (can app.view e)) [
  | inl k ↦ rw k (run-IsConsistent es (step e app).0 (step-IsConsistent e app k h))
  | inr k ↦ rw k (run-IsConsistent es app h)
]

-- After every session, whatever theme was stored before: the chat and the administration are shown
-- exactly while there is a user, and a reload of the page would start with the theme that is shown.
pub run-started-IsConsistent :
    (es : List Event) (stored : Text) → IsConsistent (run es (started stored))
unfolding started
run-started-IsConsistent es stored =
    run-IsConsistent es (started stored) (record { inside = refl; kept = refl })
