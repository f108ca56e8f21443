-- ===== src/Chat/Keys.antt =====
-- The keys of the maps over channels, `CHAN_KEY`, and how frontend/app.jsx takes them apart.
use korechat.Common.{
  suc, true, ◌+◌, length, drop, ◌∷◌, [], ◌≡◌, refl, ap, ◌≢◌, Text, text_eq, starts_with, Option,
  none, some, false, ◌&&◌, ◌==◌, if◌then◌else◌, arith, sym, ◌∙◌, ◌↔◌, Bool-cases, inl, inr,
}
use korechat.Chat.{chan_key, net_prefix}

-- The part before the first "::".
unfoldable pub before_sep : Text → Text
before_sep [] = []
before_sep (c ∷ []) = c ∷ []
before_sep (c ∷ d ∷ s) = if c == b':' && d == b':' then [] else c ∷ before_sep (d ∷ s)

-- The part behind the first "::".
unfoldable pub after_sep : Text → Option Text
after_sep [] = none
after_sep (c ∷ []) = none
after_sep (c ∷ d ∷ s) = if c == b':' && d == b':' then some s else after_sep (d ∷ s)

-- `k.split("::")[1]`; every key has a separator, so the last case is never taken.
unfoldable pub chan_of_key : Text → Text
unfolding before_sep after_sep
chan_of_key k = elim (after_sep k) [ none ↦ [] | some s ↦ before_sep s ]

-- A network id without a colon, as the server's UUIDs are.
abbrev pub NoColon : Text → Type 0
NoColon [] = Unit
NoColon (c ∷ s) = (c ≢ b':') × NoColon s

-- A channel name in which no colon follows another.
abbrev pub NoPair : Text → Type 0
NoPair [] = Unit
NoPair (c ∷ []) = Unit
NoPair (c ∷ d ∷ s) = ((c == b':' && d == b':') ≡ false) × NoPair (d ∷ s)

before_sep_self : (s : Text) → NoPair s → before_sep s ≡ s
unfolding before_sep
before_sep_self [] h = refl
before_sep_self (c ∷ []) h = refl
before_sep_self (c ∷ d ∷ s) h = rw h.0 (ap (λ t. c ∷ t) (before_sep_self (d ∷ s) h.1))

NoPair-of_self : (s : Text) → before_sep s ≡ s → NoPair s
unfolding before_sep
NoPair-of_self [] h = tt
NoPair-of_self (c ∷ []) h = tt
NoPair-of_self (c ∷ d ∷ s) h = elim (Bool-cases (c == b':' && d == b':')) [
  | inl e ↦ absurd (ground arith)
  | inr e ↦ (e, NoPair-of_self (d ∷ s) (ground arith))
]

pub after_sep-chan_key :
    (net_id chan : Text) → NoColon net_id → after_sep (chan_key net_id chan) ≡ some chan
unfolding after_sep chan_key
after_sep-chan_key [] chan h = refl
after_sep-chan_key (c ∷ []) chan h = ground arith
after_sep-chan_key (c ∷ d ∷ s) chan h = ground (arith, after_sep-chan_key (d ∷ s) chan h.1)

-- The name comes back up to its first separator.
pub chan_of_key-chan_key :
    (net_id chan : Text) → NoColon net_id → chan_of_key (chan_key net_id chan) ≡ before_sep chan
unfolding chan_of_key
chan_of_key-chan_key net_id chan h = rw (after_sep-chan_key net_id chan h, chan_of_key)

-- For a network id without a colon, the name that the code reads back from a key is the channel's
-- exactly if no colon follows another in it.
pub chan_of_key_iff :
    (net_id chan : Text)
    → NoColon net_id
    → (chan_of_key (chan_key net_id chan) ≡ chan) ↔ NoPair chan
chan_of_key_iff net_id chan h = (
  λ e. NoPair-of_self chan (sym (chan_of_key-chan_key net_id chan h) ∙ e),
  λ p. chan_of_key-chan_key net_id chan h ∙ before_sep_self chan p,
)

-- The key of a channel starts with the prefix of a network exactly if it is the channel's own.
pub starts_with-chan_key :
    (net_id chan other : Text)
    → NoColon net_id
    → NoColon other
    → starts_with (chan_key net_id chan) (net_prefix other) ≡ text_eq other net_id
unfolding starts_with chan_key net_prefix text_eq
starts_with-chan_key [] chan [] h k = refl
starts_with-chan_key [] chan (d ∷ p) h k = ground arith
starts_with-chan_key (c ∷ s) chan [] h k = ground arith
starts_with-chan_key (c ∷ s) chan (d ∷ p) h k =
    ground (arith, starts_with-chan_key s chan p h.1 k.1)

pub text_eq-chan_key :
    (net_id a b : Text) → text_eq (chan_key net_id a) (chan_key net_id b) ≡ text_eq a b
unfolding chan_key text_eq
text_eq-chan_key [] a b = ground arith
text_eq-chan_key (c ∷ s) a b = ground (arith, text_eq-chan_key s a b)

-- A key with the prefix of a network is the key of a channel.
pub chan_key-drop :
    (net_id k : Text)
    → starts_with k (net_prefix net_id) ≡ true
    → chan_key net_id (drop (length net_id + 2) k) ≡ k
unfolding starts_with net_prefix chan_key
chan_key-drop [] [] h = cc
chan_key-drop [] (c ∷ []) h = ground arith
chan_key-drop [] (c ∷ d ∷ r) h = ground arith
chan_key-drop (x ∷ n) [] h = cc
chan_key-drop (x ∷ n) (c ∷ k) h =
    let p : length (x ∷ n) + 2 ≡ suc (length n + 2) = omega arith in
    rw p (ground (arith, chan_key-drop n k))

-- A key whose channel's name has no colon behind another, if it is one of the network's.
abbrev pub IsPlain : Text → Text → Type 0
IsPlain net_id k = starts_with k (net_prefix net_id) ≡ true → NoPair (drop (length net_id + 2) k)

-- The code finds the key again from the name that it reads in it.
pub chan_key-chan_of_key :
    (net_id k : Text)
    → NoColon net_id
    → IsPlain net_id k
    → starts_with k (net_prefix net_id) ≡ true
    → chan_key net_id (chan_of_key k) ≡ k
chan_key-chan_of_key net_id k h plain e =
    let rest : Text = drop (length net_id + 2) k in
    let back : chan_key net_id rest ≡ k = chan_key-drop net_id k e in
    let named : chan_of_key k ≡ rest =
      ap chan_of_key (sym back)
      ∙ chan_of_key-chan_key net_id rest h
      ∙ before_sep_self rest (plain e) in
    rw named back
