-- ===== src/Screen/Matches.antt =====
-- The matches of a regular expression that `exec` finds one behind the other, in any text.
use korechat.Common.{
  ℕ, zero, suc, ◌++◌, ◌∷◌, [], ◌≡◌, ◌≤◌, ◌<◌, refl, sym, subst, Text, length, List, All, Option,
  none, some, arith,
}
use korechat.Screen.Linked.{exec_joins, Splits}
use korechat.Screen.Pieces.{Piece, plain, Found, here_or, exec, plain_if, cut}

-- An expression that matches one character at least.
abbrev pub Shortens : (Text → Option (Text × Text)) → Type 0
Shortens here = (s w r : Text) → here s ≡ some (w, r) → length r < length s

-- An expression that matches a longer text where it matches a text.
abbrev pub Grows : (Text → Option (Text × Text)) → Type 0
Grows here = (s t : Text) → here (s ++ t) ≡ none → here s ≡ none

here_or-none :
    (o : Option (Text × Text)) (c : ℕ) (later : Option Found)
    → here_or o c later ≡ none
    → (o ≡ none) × (later ≡ none)
here_or-none (some (w, r)) c later h =
    let g : ◌≡◌ {A = Option Found} none (some (record { before = []; match = w; after = r })) =
      sym h in
    cc
here_or-none none c none h = (refl, refl)
here_or-none none c (some f) h =
    let g : ◌≡◌ {A = Option Found} none (some (record f { before = c ∷ f.before })) = sym h in cc

-- How a match was found: here, or later.
data HereOr (o : Option (Text × Text)) (c : ℕ) (later : Option Found) (f : Found) : Type 0 where
  now :
      (w r : Text)
      → o ≡ some (w, r)
      → record { before = []; match = w; after = r } ≡ f
      → HereOr o c later f
  behind :
      (g : Found)
      → o ≡ none
      → later ≡ some g
      → record g { before = c ∷ g.before } ≡ f
      → HereOr o c later f

here_or_cases :
    (o : Option (Text × Text)) (c : ℕ) (later : Option Found) (f : Found)
    → here_or o c later ≡ some f
    → HereOr o c later f
here_or_cases (some (w, r)) c later f h = now w r refl cc
here_or_cases none c none f h = cc
here_or_cases none c (some g) f h = behind g refl refl cc

module _ (here : Text → Option (Text × Text)) where
  pub exec_right : (s t : Text) → exec here (s ++ t) ≡ none → exec here t ≡ none
  unfolding exec
  exec_right [] t h = h
  exec_right (c ∷ s) t h =
      exec_right s t (here_or-none (here (c ∷ s ++ t)) c (exec here (s ++ t)) h).1

  pub exec_left : Grows here → (s t : Text) → exec here (s ++ t) ≡ none → exec here s ≡ none
  unfolding exec
  exec_left grows [] t h = refl
  exec_left grows (c ∷ s) t h =
      let both = here_or-none (here (c ∷ s ++ t)) c (exec here (s ++ t)) h in
      rw (grows (c ∷ s) t both.0, exec_left grows s t both.1)

  -- A property of every match of the expression.
  pub exec_match :
      {P : Text → Type 0}
      → ((s w r : Text) → here s ≡ some (w, r) → P w)
      → (s : Text) (f : Found) → exec here s ≡ some f
      → P f.match
  unfolding exec
  exec_match own [] f h = cc
  exec_match {P} own (c ∷ s) f h = elim (here_or_cases (here (c ∷ s)) c (exec here s) f h) [
    | now w r e k ↦ subst (λ (g : Found). P g.match) k (own (c ∷ s) w r e)
    | behind g e l k ↦ subst (λ (g : Found). P g.match) k (exec_match own s g l)
  ]

  exec-Shortens :
      Shortens here → (s : Text) (f : Found) → exec here s ≡ some f → length f.after < length s
  unfolding exec
  exec-Shortens short [] f h = cc
  exec-Shortens short (c ∷ s) f h = elim (here_or_cases (here (c ∷ s)) c (exec here s) f h) [
    | now w r e k ↦ subst (λ (g : Found). length g.after < suc (length s)) k (short (c ∷ s) w r e)
    | behind g e l k ↦
        let rest : length g.after < length s = exec-Shortens short s g l in
        subst (λ (g : Found). length g.after < suc (length s)) k (omega arith)
  ]

  -- What stands before the first match has no match.
  pub exec_before :
      Splits here
      → Grows here
      → (s : Text) (f : Found) → exec here s ≡ some f
      → exec here f.before ≡ none
  unfolding exec
  exec_before splits grows [] f h = cc
  exec_before splits grows (c ∷ s) f h = elim (here_or_cases (here (c ∷ s)) c (exec here s) f h) [
    | now w r e k ↦ subst (λ (g : Found). exec here g.before ≡ none) k refl
    | behind g e l k ↦
        let none_here : here (c ∷ g.before) ≡ none =
          grows (c ∷ g.before) (g.match ++ g.after) (rw (← exec_joins here splits s g l) e) in
        let none_later : exec here g.before ≡ none = exec_before splits grows s g l in
        let both : here_or (here (c ∷ g.before)) c (exec here g.before) ≡ none =
          rw (none_here, none_later) in
        subst (λ (g : Found). exec here g.before ≡ none) k both
  ]

  -- A property of all the pieces of a text, where the text has `R`.
  pub All-cut :
      Shortens here
      → (P : Piece → Type 0) (R : Text → Type 0) (piece : Text → Piece) (rest : Text → List Piece)
      → ((s : Text) (f : Found)
          → R s
          → exec here s ≡ some f
          → P (plain f.before) × (P (piece f.match) × R f.after))
      → ((s : Text) → R s → exec here s ≡ none → All P (rest s))
      → (fuel : ℕ) (s : Text) → length s ≤ fuel
      → R s
      → All P (cut here piece rest fuel s)
  unfolding cut
  All-cut short P R piece rest step done zero [] h r = done [] r (unfold exec in refl)
  All-cut short P R piece rest step done zero (c ∷ s) h r = absurd (omega arith)
  All-cut short P R piece rest step done (suc fuel) s h r =
      next (exec here s) refl (All-cut short P R piece rest step done fuel)
    where
      All-plain_if : (t : Text) (ps : List Piece) → P (plain t) → All P ps → All P (plain_if t ps)
      All-plain_if [] ps p q = q
      All-plain_if (c ∷ t) ps p q = (p, q)

      next :
          (o : Option Found)
          → exec here s ≡ o
          → ((t : Text) → length t ≤ fuel → R t → All P (cut here piece rest fuel t))
          → All P (elim o [
            | none ↦ rest s
            | some f ↦ plain_if f.before (piece f.match ∷ cut here piece rest fuel f.after)
          ])
      next none e ih = done s r e
      next (some f) e ih =
          let less : length f.after < length s = exec-Shortens short s f e in
          let (p, (q, r')) = step s f r e in
          All-plain_if f.before _ p (q, ih f.after (omega arith) r')
