-- ===== src/Common/Trimmed.antt =====
-- Texts without white space at their ends.
use Prim.Native.Nat.{ℕ}
use mathlib.Core.Path.{◌≡◌, refl, ap, ◌∙◌}
use mathlib.Core.Logic.{inl, inr}
use mathlib.Core.Bool.{Bool, true, false, not}
use mathlib.Core.List.{[], ◌∷◌, ◌++◌}
use native.Mathlib.Omega.{arith}
use korechat.Common.Tests.{Bool-cases}
use korechat.Common.Lists.{any}
use korechat.Common.Texts.{Text}
use korechat.Common.Whitespace.{is_white, cons_trimmed, trim_end, trim_start, trim}

-- The first character, if there is one, is no white space.
abbrev starts_black : Text → Bool
starts_black [] = true
starts_black (c ∷ s) = not (is_white c)

trim_start_black : (s : Text) → starts_black (trim_start s) ≡ true
unfolding trim_start
trim_start_black [] = refl
trim_start_black (c ∷ s) = ground (arith, trim_start_black s)

trim_start_self : (s : Text) → starts_black s ≡ true → trim_start s ≡ s
unfolding trim_start
trim_start_self [] h = refl
trim_start_self (c ∷ s) h = ground arith

cons_trimmed_black :
    (c : ℕ) (s : Text) → is_white c ≡ false → starts_black (cons_trimmed c s) ≡ true
cons_trimmed_black c [] h = ground arith
cons_trimmed_black c (d ∷ s) h = ground arith

trim_end_black : (s : Text) → starts_black s ≡ true → starts_black (trim_end s) ≡ true
unfolding trim_end
trim_end_black [] h = refl
trim_end_black (c ∷ s) h = cons_trimmed_black c (trim_end s) (ground arith)

trim_end-cons_trimmed :
    (c : ℕ) (s : Text) → trim_end s ≡ s → trim_end (cons_trimmed c s) ≡ cons_trimmed c s
unfolding trim_end
trim_end-cons_trimmed c [] h = elim (Bool-cases (is_white c)) [ inl e ↦ rw e | inr e ↦ rw e (rw e) ]
trim_end-cons_trimmed c (d ∷ s) h = ap (cons_trimmed c) h

trim_end-trim_end : (s : Text) → trim_end (trim_end s) ≡ trim_end s
unfolding trim_end
trim_end-trim_end [] = refl
trim_end-trim_end (c ∷ s) = trim_end-cons_trimmed c (trim_end s) (trim_end-trim_end s)

-- A trimmed text stays as it is.
pub trim-trim : (s : Text) → trim (trim s) ≡ trim s
unfolding trim
trim-trim s =
    ap trim_end (
      trim_start_self (trim_end (trim_start s))
        (trim_end_black (trim_start s) (trim_start_black s)))
    ∙ trim_end-trim_end (trim_start s)

cons_trimmed-last : (c x : ℕ) (s : Text) → cons_trimmed c (s ++ x ∷ []) ≡ c ∷ (s ++ x ∷ [])
cons_trimmed-last c x [] = refl
cons_trimmed-last c x (d ∷ s) = refl

trim_end-last : (s : Text) (x : ℕ) → is_white x ≡ false → trim_end (s ++ x ∷ []) ≡ s ++ x ∷ []
unfolding trim_end
trim_end-last [] x h = rw h
trim_end-last (c ∷ s) x h = ap (cons_trimmed c) (trim_end-last s x h) ∙ cons_trimmed-last c x s

append_black :
    (s : Text) (x : ℕ)
    → starts_black s ≡ true
    → is_white x ≡ false
    → starts_black (s ++ x ∷ []) ≡ true
append_black [] x h k = ground arith
append_black (c ∷ s) x h k = h

-- Nor does one with a black character behind it change.
pub trim-append_last :
    (s : Text) (x : ℕ) → is_white x ≡ false → trim (trim s ++ x ∷ []) ≡ trim s ++ x ∷ []
unfolding trim
trim-append_last s x h =
    let b =
      append_black (trim_end (trim_start s)) x (trim_end_black (trim_start s) (trim_start_black s))
        h in
    ap trim_end (trim_start_self (trim_end (trim_start s) ++ x ∷ []) b)
    ∙ trim_end-last (trim_end (trim_start s)) x h

module _ (p : ℕ → Bool) where
  any-trim_start : (s : Text) → any p s ≡ false → any p (trim_start s) ≡ false
  unfolding trim_start
  any-trim_start [] h = refl
  any-trim_start (c ∷ s) h = ground (arith, any-trim_start s)

  any-cons_trimmed :
      (c : ℕ) (s : Text) → p c ≡ false → any p s ≡ false → any p (cons_trimmed c s) ≡ false
  any-cons_trimmed c [] h k = elim (Bool-cases (is_white c)) [ inl e ↦ rw e | inr e ↦ rw e (rw h) ]
  any-cons_trimmed c (d ∷ s) h k = rw h k

  any-trim_end : (s : Text) → any p s ≡ false → any p (trim_end s) ≡ false
  unfolding trim_end
  any-trim_end [] h = refl
  any-trim_end (c ∷ s) h =
      any-cons_trimmed c (trim_end s) (ground arith) (any-trim_end s (ground arith))

  -- Trimming brings no character in.
  pub any-trim : (s : Text) → any p s ≡ false → any p (trim s) ≡ false
  unfolding trim
  any-trim s h = any-trim_end (trim_start s) (any-trim_start s h)
