-- ===== src/Screen/Linked.antt =====
-- The pieces of a text hold the whole of it, and a link is always a web address.
use mathlib.Core.List.{append_assoc, append-nil}
use korechat.Common.{
  ℕ, zero, suc, ◌++◌, ◌∷◌, [], ◌≡◌, ◌∙◌, refl, sym, ap, Text, lit, starts_with, drop, length, List,
  Bool, true, ◌==◌, Option, none, some, Bool-cases, inl, inr, arith,
}
use korechat.Screen.Pieces.{
  Piece, plain, link, mention, Found, is_url_char, is_word_char, split_at, greedy, url_here,
  mention_here, here_or, exec, plain_if, cut, mention_pieces, pieces,
}

-- The characters of a piece.
abbrev pub source : Piece → Text
source (plain s) = s
source (link s) = s
source (mention s) = s

abbrev pub sources : List Piece → Text
sources [] = []
sources (p ∷ ps) = source p ++ sources ps

-- An expression that only splits a text.
abbrev pub Splits : (Text → Option (Text × Text)) → Type 0
Splits here = (s w r : Text) → here s ≡ some (w, r) → s ≡ w ++ r

split_at_joins : (p : ℕ → Bool) (s : Text) → (split_at p s).0 ++ (split_at p s).1 ≡ s
unfolding split_at
split_at_joins p [] = refl
split_at_joins p (c ∷ s) = elim (Bool-cases (p c)) [
  | inl e ↦ rw e (ap (◌∷◌ c) (split_at_joins p s))
  | inr e ↦ rw e
]

greedy_joins :
    (start w r s : Text) (q : Text × Text)
    → q.0 ++ q.1 ≡ s
    → greedy start q ≡ some (w, r)
    → start ++ s ≡ w ++ r
greedy_joins start w r s ([], t) e h = cc
greedy_joins start w r s (c ∷ u, t) e h =
    let a : start ++ c ∷ u ≡ w = cc in
    let b : t ≡ r = cc in rw (← e, ← a, ← b) (sym (append_assoc start (c ∷ u) t))

starts_with_split : (p s : Text) → starts_with s p ≡ true → p ++ drop (length p) s ≡ s
unfolding starts_with
starts_with_split [] s h = refl
starts_with_split (d ∷ p) [] h = cc
starts_with_split (d ∷ p) (c ∷ s) h = ground (arith, starts_with_split p s)

greedy_splits :
    (p : ℕ → Bool) (start s w r : Text)
    → starts_with s start ≡ true
    → greedy start (split_at p (drop (length start) s)) ≡ some (w, r)
    → s ≡ w ++ r
greedy_splits p start s w r h e =
    sym (starts_with_split start s h)
    ∙ greedy_joins start w r (drop (length start) s) (split_at p (drop (length start) s))
        (split_at_joins p (drop (length start) s)) e

pub url_here-Splits : Splits url_here
unfolding url_here lit
url_here-Splits s w r h = elim (Bool-cases (starts_with s (lit "http://"))) [
  | inl e ↦ greedy_splits is_url_char (lit "http://") s w r e (rw e at h)
  | inr e ↦ elim (Bool-cases (starts_with s (lit "https://"))) [
    | inl e' ↦ greedy_splits is_url_char (lit "https://") s w r e' (rw (e, e') at h)
    | inr e' ↦ let g : ◌≡◌ {A = Option (Text × Text)} none (some (w, r)) = rw (e, e') at h in cc
  ]
]

pub mention_here-Splits : Splits mention_here
unfolding mention_here
mention_here-Splits [] w r h = cc
mention_here-Splits (c ∷ s) w r h = elim (Bool-cases (c == b'@')) [
  | inl e ↦
      let at_sign : c ≡ b'@' = ground arith in
      rw at_sign (
        greedy_joins (b'@' ∷ []) w r s (split_at is_word_char s) (split_at_joins is_word_char s)
          (rw e at h))
  | inr e ↦ let g : ◌≡◌ {A = Option (Text × Text)} none (some (w, r)) = rw e at h in cc
]

here_or_joins :
    (o : Option (Text × Text)) (c : ℕ) (s : Text) (later : Option Found) (f : Found)
    → ((w r : Text) → o ≡ some (w, r) → c ∷ s ≡ w ++ r)
    → ((g : Found) → later ≡ some g → s ≡ g.before ++ (g.match ++ g.after))
    → here_or o c later ≡ some f
    → c ∷ s ≡ f.before ++ (f.match ++ f.after)
here_or_joins (some (w, r)) c s later f now ih h =
    let e : record { before = []; match = w; after = r } ≡ f = cc in rw (← e) (now w r refl)
here_or_joins none c s none f now ih h = cc
here_or_joins none c s (some g) f now ih h =
    let e : record g { before = c ∷ g.before } ≡ f = cc in rw (← e) (ap (◌∷◌ c) (ih g refl))

module _ (here : Text → Option (Text × Text)) (splits : Splits here) where
  pub exec_joins :
      (s : Text) (f : Found) → exec here s ≡ some f → s ≡ f.before ++ (f.match ++ f.after)
  unfolding exec
  exec_joins [] f h = cc
  exec_joins (c ∷ s) f h =
      here_or_joins (here (c ∷ s)) c s (exec here s) f (splits (c ∷ s)) (exec_joins s) h

  sources-plain_if : (s : Text) (ps : List Piece) → sources (plain_if s ps) ≡ s ++ sources ps
  sources-plain_if [] ps = refl
  sources-plain_if (c ∷ s) ps = refl

  sources-cut :
      (piece : Text → Piece) (rest : Text → List Piece)
      → ((w : Text) → source (piece w) ≡ w)
      → ((s : Text) → sources (rest s) ≡ s)
      → (fuel : ℕ) (s : Text) → sources (cut here piece rest fuel s) ≡ s
  unfolding cut
  sources-cut piece rest own all zero s = all s
  sources-cut piece rest own all (suc fuel) s =
      next (exec here s) refl (sources-cut piece rest own all fuel)
    where
      next :
          (o : Option Found)
          → exec here s ≡ o
          → ((t : Text) → sources (cut here piece rest fuel t) ≡ t)
          → sources (elim o [
            | none ↦ rest s
            | some f ↦ plain_if f.before (piece f.match ∷ cut here piece rest fuel f.after)
          ])
            ≡ s
      next none e ih = all s
      next (some f) e ih =
          rw
            (
              sources-plain_if f.before (piece f.match ∷ cut here piece rest fuel f.after),
              own f.match,
              ih f.after,
            )
            (sym (exec_joins s f e))

sources-mention_pieces : (s : Text) → sources (mention_pieces s) ≡ s
unfolding mention_pieces
sources-mention_pieces s =
    sources-cut mention_here mention_here-Splits mention (λ t. plain_if t []) (λ w. refl)
      (λ t. sources-plain_if mention_here mention_here-Splits t [] ∙ append-nil t) (length s) s

-- The pieces of a text, one behind the other, are the text.
pub sources-pieces : (text : Text) → sources (pieces text) ≡ text
unfolding pieces
sources-pieces text =
    sources-cut url_here url_here-Splits link mention_pieces (λ w. refl) sources-mention_pieces
      (length text) text
