-- ===== src/Sidebar/Offered.antt =====
-- What the switcher offers (frontend/app.jsx, `QuickSwitcherModal`).
use korechat.Common.{
  ◌+◌, ◌∷◌, [], ◌≡◌, Text, text_eq, text_eq_refl, starts_with, Dict, lookup, set_has, List, length,
  drop, All, All-append, All-imp, true, false, Bool-cases, inl, inr, arith, has_key, has_key-lookup,
  Option-cases,
}
use korechat.Chat.{net_prefix, chan_key, status_chan}
use korechat.Chat.Keys.{chan_key-drop}
use korechat.Sidebar.{Label, Item, items_of, items}

-- An item of an open channel other than the status window, in a network that is known.
pub record IsOpen (networks : Dict Label) (ks : List Text) (i : Item) : Type 0 where
  pub known : has_key i.net_id networks ≡ true
  pub open_ : set_has (chan_key i.net_id i.chan) ks ≡ true
  pub named : text_eq i.chan status_chan ≡ false

module _ (networks : Dict Label) (ks : List Text) where
  items_of-IsOpen :
      (n name : Text) (rest : List Text)
      → has_key n networks ≡ true
      → All (λ k. set_has k ks ≡ true) rest
      → All (IsOpen networks ks) (items_of n name rest)
  unfolding items_of
  items_of-IsOpen n name [] known h = tt
  items_of-IsOpen n name (k ∷ rest) known h = elim (Bool-cases (starts_with k (net_prefix n))) [
    | inr e ↦ rw e (items_of-IsOpen n name rest known h.1)
    | inl e ↦ elim (Bool-cases (text_eq (drop (length n + 2) k) status_chan)) [
      | inl f ↦ rw (e, f) (items_of-IsOpen n name rest known h.1)
      | inr f ↦
          rw (e, f)
            (
              record { known = known; open_ = rw (chan_key-drop n k e) h.0; named = f },
              items_of-IsOpen n name rest known h.1,
            )
    ]
  ]

  present : (rest : List Text) → All (λ k. set_has k rest ≡ true) rest
  unfolding set_has
  present [] = tt
  present (x ∷ xs) = (ground (arith, text_eq_refl x), All-imp (λ k h. ground arith) xs (present xs))

  -- Everything that the switcher offers is an open channel other than the status window, in a known
  -- network.
  pub items-IsOpen : (order : List Text) → All (IsOpen networks ks) (items networks order ks)
  unfolding items
  items-IsOpen [] = tt
  items-IsOpen (n ∷ order) = elim (Option-cases (lookup n networks)) [
    | inl e ↦ rw e (items-IsOpen order)
    | inr (l, e) ↦ rw e (
        All-append (IsOpen networks ks) (items_of n _ ks) (items networks order ks)
          (items_of-IsOpen n _ ks (rw (has_key-lookup n networks, e)) (present ks))
          (items-IsOpen order))
  ]
