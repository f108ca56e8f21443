-- ===== src/Common/Dicts.antt =====
-- JavaScript objects used as maps (own properties, in insertion order) and `Set`s of strings.
use mathlib.Core.Path.{◌≡◌, refl}
use mathlib.Core.Bool.{Bool, true, false, ◌||◌}
use mathlib.Core.Option.{Option, none, some}
use mathlib.Core.List.{List, [], ◌∷◌, ◌++◌}
use native.Mathlib.Omega.{arith}
use mathlib.Core.Logic.{inl, inr}
use korechat.Common.Tests.{if◌then◌else◌, Bool-cases}
use korechat.Common.Texts.{Text, text_eq, text_eq_iff, text_eq_refl}

abbrev pub Dict {ℓ} : Type ℓ → Type ℓ
Dict V = List (Text × V)

module _ {ℓ} {V : Type ℓ} where
  -- `o[k]`
  unfoldable pub lookup : Text → Dict V → Option V
  lookup k [] = none
  lookup k ((j, v) ∷ o) = if text_eq j k then some v else lookup k o

  -- `k in o`
  unfoldable pub has_key : Text → Dict V → Bool
  has_key k [] = false
  has_key k ((j, v) ∷ o) = text_eq j k || has_key k o

  -- `{...o, [k]: v}`: an old key keeps its place, a new one goes last.
  unfoldable pub put : Text → V → Dict V → Dict V
  put k v [] = (k, v) ∷ []
  put k v ((j, w) ∷ o) = let rest = put k v o in if text_eq j k then (j, v) ∷ o else (j, w) ∷ rest

  -- `delete o[k]`
  unfoldable pub remove : Text → Dict V → Dict V
  remove k [] = []
  remove k ((j, w) ∷ o) = let rest = remove k o in if text_eq j k then rest else (j, w) ∷ rest

  -- `Object.fromEntries(Object.entries(o).filter(([k]) => !p(k)))`
  unfoldable pub reject_keys : (Text → Bool) → Dict V → Dict V
  reject_keys p [] = []
  reject_keys p ((j, w) ∷ o) = let rest = reject_keys p o in if p j then rest else (j, w) ∷ rest

  -- `{...o, ...more}`
  unfoldable pub merge : Dict V → Dict V → Dict V
  merge o [] = o
  merge o ((k, v) ∷ more) = merge (put k v o) more

  -- `Object.keys(o)`
  abbrev pub keys : Dict V → List Text
  keys [] = []
  keys ((k, v) ∷ o) = k ∷ keys o

  pub lookup-put :
      (k j : Text) (v : V) (o : Dict V)
      → lookup j (put k v o) ≡ (if text_eq k j then some v else lookup j o)
  unfolding lookup put
  lookup-put k j v [] = refl
  lookup-put k j v ((i, w) ∷ o) =
      ground (arith, text_eq_iff k j, text_eq_iff i k, text_eq_iff i j, lookup-put k j v o)

  pub lookup-put_self : (k : Text) (v : V) (o : Dict V) → lookup k (put k v o) ≡ some v
  lookup-put_self k v o = simp (lookup-put, text_eq_refl)

  pub lookup-remove :
      (k j : Text) (o : Dict V) → lookup j (remove k o) ≡ (if text_eq k j then none else lookup j o)
  unfolding lookup remove
  lookup-remove k j [] = ground arith
  lookup-remove k j ((i, w) ∷ o) =
      ground (arith, text_eq_iff k j, text_eq_iff i k, text_eq_iff i j, lookup-remove k j o)

  pub lookup-reject_keys :
      (p : Text → Bool) (j : Text) (o : Dict V)
      → lookup j (reject_keys p o) ≡ (if p j then none else lookup j o)
  unfolding lookup reject_keys
  lookup-reject_keys p j [] = ground arith
  lookup-reject_keys p j ((i, w) ∷ o) = ground (arith, text_eq_iff i j, lookup-reject_keys p j o)

  pub has_key-lookup :
      (k : Text) (o : Dict V) → has_key k o ≡ elim (lookup k o) [ none ↦ false | some v ↦ true ]
  unfolding lookup has_key
  has_key-lookup k [] = refl
  has_key-lookup k ((i, w) ∷ o) = ground (arith, has_key-lookup k o)

  pub lookup-no_key : (n : Text) (o : Dict V) → has_key n o ≡ false → lookup n o ≡ none
  lookup-no_key n o h = by_entry (lookup n o) (rw (has_key-lookup n o) at h)
    where
      by_entry : (q : Option V) → (elim q [ none ↦ false | some v ↦ true ]) ≡ false → q ≡ none
      by_entry none h' = refl
      by_entry (some v) h' = cc

  pub keys-put_old :
      (k : Text) (v : V) (o : Dict V) → has_key k o ≡ true → keys (put k v o) ≡ keys o
  unfolding has_key put
  keys-put_old k v [] h = cc
  keys-put_old k v ((i, w) ∷ o) h = ground (arith, keys-put_old k v o)

  -- No key occurs twice, as in every object.
  abbrev pub Unique : Dict V → Type 0
  Unique [] = Unit
  Unique ((k, v) ∷ o) = (has_key k o ≡ false) × Unique o

  pub has_key-put :
      (k j : Text) (v : V) (o : Dict V) → has_key j (put k v o) ≡ (text_eq k j || has_key j o)
  unfolding has_key put
  has_key-put k j v [] = ground arith
  has_key-put k j v ((i, w) ∷ o) = ground (
    arith,
    has_key-put k j v o,
    text_eq_iff i k,
    text_eq_iff k i,
    text_eq_iff i j,
    text_eq_iff k j,
  )

  pub Unique-put : (k : Text) (v : V) (o : Dict V) → Unique o → Unique (put k v o)
  unfolding put has_key
  Unique-put k v [] u = (refl, tt)
  Unique-put k v ((i, w) ∷ o) u = elim (Bool-cases (text_eq i k)) [
    | inl e ↦ rw e u
    | inr e ↦
        let f : text_eq k i ≡ false = ground (arith, text_eq_iff i k, text_eq_iff k i) in
        rw e ((rw (has_key-put k i v o, f) u.0), Unique-put k v o u.1)
  ]

-- `new Set()` of strings: `has`, `add`, `delete`.
unfoldable pub set_has : Text → List Text → Bool
set_has x [] = false
set_has x (y ∷ ys) = text_eq y x || set_has x ys

unfoldable pub set_add : Text → List Text → List Text
set_add x ys = if set_has x ys then ys else ys ++ x ∷ []

unfoldable pub set_delete : Text → List Text → List Text
set_delete x [] = []
set_delete x (y ∷ ys) = let rest = set_delete x ys in if text_eq y x then rest else y ∷ rest

pub set_has-append :
    (x y : Text) (ys : List Text) → set_has x (ys ++ y ∷ []) ≡ (text_eq y x || set_has x ys)
unfolding set_has
set_has-append x y [] = ground arith
set_has-append x y (z ∷ ys) = ground (arith, set_has-append x y ys)

pub set_has-set_add :
    (x y : Text) (ys : List Text) → set_has x (set_add y ys) ≡ (text_eq y x || set_has x ys)
unfolding set_add
set_has-set_add x y ys = ground (arith, set_has-append x y ys, text_eq_iff y x)

pub set_has-set_delete :
    (x y : Text) (ys : List Text)
    → set_has x (set_delete y ys) ≡ (if text_eq y x then false else set_has x ys)
unfolding set_has set_delete
set_has-set_delete x y [] = ground arith
set_has-set_delete x y (z ∷ ys) =
    ground (arith, text_eq_iff y x, text_eq_iff z x, text_eq_iff z y, set_has-set_delete x y ys)
