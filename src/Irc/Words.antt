-- ===== src/Irc/Words.antt =====
-- Cutting a text at a character, and the loop over the parameters.
use korechat.Common.{
  ℕ, zero, suc, ◌<◌, ◌≤◌, ◌++◌, ◌∷◌, [], ◌≡◌, ◌≢◌, refl, Text, length, Option, none, some, ◌==◌,
  if◌then◌else◌, Bool-cases, inl, inr, arith, ap,
}
use korechat.Irc.{break_at, longer, params_loop, parse_params}

-- `d` does not occur.
abbrev pub Without : ℕ → Text → Type 0
Without d [] = Unit
Without d (c ∷ s) = (c ≢ d) × Without d s

pub break_at-append : (d : ℕ) (w r : Text) → Without d w → break_at d (w ++ d ∷ r) ≡ some (w, r)
unfolding break_at
break_at-append d [] r h = ground arith
break_at-append d (c ∷ w) r h = ground (arith, break_at-append d w r h.1)

pub break_at-none : (d : ℕ) (w : Text) → Without d w → break_at d w ≡ none
unfolding break_at
break_at-none d [] h = refl
break_at-none d (c ∷ w) h = ground (arith, break_at-none d w h.1)

-- What a cut gives back is shorter.
pub break_at-shorter : (d : ℕ) (s w r : Text) → break_at d s ≡ some (w, r) → length r < length s
unfolding break_at
break_at-shorter d [] w r h = cc
break_at-shorter d (c ∷ s) w r h = elim (Bool-cases (c == d)) [
  | inl e ↦ ground arith
  | inr e ↦ shorter (break_at d s) (break_at-shorter d s) (rw (e, break_at) at h)
]
  where
    shorter :
        (o : Option (Text × Text))
        → ((w' r' : Text) → o ≡ some (w', r') → length r' < length s)
        → longer c o ≡ some (w, r)
        → length r < suc (length s)
    shorter none ih h' = cc
    shorter (some (w', r')) ih h' = let l : length r' < length s = ih w' r' refl in ground arith

-- The loop's result does not depend on its fuel, once there is one unit for each character.
pub params_loop_fuel :
    (f g : ℕ) (s : Text) → length s ≤ f → length s ≤ g → params_loop f s ≡ params_loop g s
unfolding params_loop
params_loop_fuel zero zero [] h k = refl
params_loop_fuel zero (suc g) [] h k = refl
params_loop_fuel (suc f) zero [] h k = refl
params_loop_fuel (suc f) (suc g) [] h k = refl
params_loop_fuel zero g (c ∷ s) h k = absurd (omega arith)
params_loop_fuel (suc f) zero (c ∷ s) h k = absurd (omega arith)
params_loop_fuel (suc f) (suc g) (c ∷ s) h k = elim (Bool-cases (c == b':')) [
  | inl e ↦ rw e
  | inr e ↦ rw e (cut (break_at b' ' (c ∷ s)) refl (params_loop_fuel f g))
]
  where
    cut :
        (o : Option (Text × Text))
        → break_at b' ' (c ∷ s) ≡ o
        → ((r : Text) → length r ≤ f → length r ≤ g → params_loop f r ≡ params_loop g r)
        → (elim o [ none ↦ (c ∷ s) ∷ [] | some (w, r) ↦ w ∷ params_loop f r ])
          ≡ (elim o [ none ↦ (c ∷ s) ∷ [] | some (w, r) ↦ w ∷ params_loop g r ])
    cut none e ih = refl
    cut (some (w, r)) e ih =
        let l : length r < suc (length s) = break_at-shorter b' ' (c ∷ s) w r e in
        ap (λ ps. w ∷ ps) (ih r (omega arith) (omega arith))

-- The loop of the source, with no fuel in sight: at each position that is not the end, either the
-- rest is the last parameter, or one word is taken and the loop goes on behind the space.
pub parse_params-cons :
    (c : ℕ) (s : Text)
    → parse_params (c ∷ s) ≡ (
        if c == b':' then s ∷ [] else elim (break_at b' ' (c ∷ s)) [
          | none ↦ (c ∷ s) ∷ []
          | some (w, r) ↦ w ∷ parse_params r
        ])
unfolding parse_params params_loop
parse_params-cons c s = elim (Bool-cases (c == b':')) [
  | inl e ↦ rw e
  | inr e ↦ rw e (cut (break_at b' ' (c ∷ s)) refl)
]
  where
    cut :
        (o : Option (Text × Text))
        → break_at b' ' (c ∷ s) ≡ o
        → (elim o [ none ↦ (c ∷ s) ∷ [] | some (w, r) ↦ w ∷ params_loop (length s) r ])
          ≡ (elim o [ none ↦ (c ∷ s) ∷ [] | some (w, r) ↦ w ∷ parse_params r ])
    cut none e = refl
    cut (some (w, r)) e =
        let l : length r < suc (length s) = break_at-shorter b' ' (c ∷ s) w r e in
        ap (λ ps. w ∷ ps) (params_loop_fuel (length s) (length r) r (omega arith) (omega arith))
