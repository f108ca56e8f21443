-- ===== src/Screen/Runs.antt =====
-- A prefix and the characters of a class behind it, as a regular expression takes them.
use korechat.Common.{
  ℕ, ◌++◌, ◌∷◌, [], ◌≡◌, ◌≢◌, ◌≤◌, ◌<◌, refl, Text, starts_with, drop, length, length-append, any,
  Bool, true, false, not, Option, none, some, Bool-cases, inl, inr, arith,
}
use korechat.Screen.Pieces.{split_at, greedy}

-- `start`, and one character of the class or more.
pub record Runs (p : ℕ → Bool) (start w : Text) : Type 0 where
  pub body : Text
  pub whole : w ≡ start ++ body
  pub not_empty : body ≢ []
  pub fits : any (λ c. not (p c)) body ≡ false

pub split_at_fits : (p : ℕ → Bool) (s : Text) → any (λ c. not (p c)) (split_at p s).0 ≡ false
unfolding split_at
split_at_fits p [] = refl
split_at_fits p (c ∷ s) = elim (Bool-cases (p c)) [
  | inl e ↦ rw e (rw (e, split_at_fits p s))
  | inr e ↦ rw e
]

pub greedy-Runs :
    (p : ℕ → Bool) (start : Text) (q : Text × Text) (w r : Text)
    → any (λ c. not (p c)) q.0 ≡ false
    → greedy start q ≡ some (w, r)
    → Runs p start w
greedy-Runs p start ([], t) w r f h = cc
greedy-Runs p start (c ∷ u, t) w r f h = record {
  body = c ∷ u;
  whole = cc;
  not_empty = λ (e : c ∷ u ≡ []). cc;
  fits = f;
}

pub greedy-none :
    (p : ℕ → Bool) (start s t : Text)
    → greedy start (split_at p (s ++ t)) ≡ none
    → greedy start (split_at p s) ≡ none
unfolding split_at
greedy-none p start [] t h = refl
greedy-none p start (c ∷ s) t h = elim (Bool-cases (p c)) [
  | inl e ↦
      let g : ◌≡◌ {A = Option (Text × Text)}
          (some (start ++ c ∷ (split_at p (s ++ t)).0, (split_at p (s ++ t)).1)) none =
        rw e at h in
      cc
  | inr e ↦ rw e
]

pub Runs-shortens :
    (p : ℕ → Bool) (start s w r : Text) → s ≡ w ++ r → Runs p start w → length r < length s
Runs-shortens p start s w r e k = shorter k.body k.whole k.not_empty
  where
    shorter : (b : Text) → w ≡ start ++ b → b ≢ [] → length r < length s
    shorter [] e' ne = absurd (ne refl)
    shorter (c ∷ b) e' ne =
        rw (e, e') (omega (arith, length-append (start ++ c ∷ b) r, length-append start (c ∷ b)))

pub starts_with_longer : (p s t : Text) → starts_with s p ≡ true → starts_with (s ++ t) p ≡ true
unfolding starts_with
starts_with_longer [] s t h = refl
starts_with_longer (d ∷ p) [] t h = cc
starts_with_longer (d ∷ p) (c ∷ s) t h = ground (arith, starts_with_longer p s t)

pub drop_longer :
    (p s t : Text) → starts_with s p ≡ true → drop (length p) (s ++ t) ≡ drop (length p) s ++ t
unfolding starts_with
drop_longer [] s t h = refl
drop_longer (d ∷ p) [] t h = cc
drop_longer (d ∷ p) (c ∷ s) t h = drop_longer p s t (ground arith)

pub starts_with_both :
    (p q s : Text)
    → length p ≤ length q
    → starts_with s p ≡ true
    → starts_with s q ≡ true
    → starts_with q p ≡ true
unfolding starts_with
starts_with_both [] q s l h k = refl
starts_with_both (d ∷ p) [] s l h k = absurd (omega arith)
starts_with_both (d ∷ p) (c ∷ q) [] l h k = cc
starts_with_both (d ∷ p) (c ∷ q) (b ∷ s) l h k =
    ground (arith, starts_with_both p q s (omega arith))
