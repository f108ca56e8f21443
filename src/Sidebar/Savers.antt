-- ===== src/Sidebar/Savers.antt =====
-- The effects of frontend/app.jsx that save the marks, the folds, the default channels, the ignored
-- nicks and the order of the networks to the profile, 800 ms after the last change.
use korechat.Common.{
  ℕ, ◌-◌, ◌∷◌, [], ◌++◌, List, leb, Bool, true, false, Option, none, some, if◌then◌else◌,
}

-- The ref that tells whether the effect may save, the value of the last render, and the timer: how
-- long it still runs and what it will save.
pub record Saver {ℓ} (A : Type ℓ) : Type ℓ where
  pub ready : Bool
  pub value : A
  pub timer : Option (ℕ × A)

pub data Effect {ℓ} (A : Type ℓ) : Type ℓ where
  -- `localStorage.setItem`
  stores : A → Effect A
  -- the request to PATCH the profile; whether it fails changes nothing here
  patches : A → Effect A

pub data Event {ℓ} (A : Type ℓ) : Type ℓ where
  -- a render with another value
  changes : A → Event A
  -- so many milliseconds pass
  waits : ℕ → Event A

module _ {ℓ} {A : Type ℓ} where
  -- The effect, after the cleanup of the one before; `local` for the marks, which are stored as well.
  unfoldable pub on_change : Bool → A → Saver A → Saver A × List (Effect A)
  on_change local v s =
      if s.ready
      then (record s { value = v; timer = some (800, v) }, if local then stores v ∷ [] else [])
      else (record { ready = true; value = v; timer = none }, [])

  -- The effect for the order of the networks: the ref is set elsewhere, when they are loaded.
  unfoldable pub on_order : A → Saver A → Saver A × List (Effect A)
  on_order v s =
      if s.ready
      then (record s { value = v; timer = some (800, v) }, [])
      else (record s { value = v; timer = none }, [])

  -- The timer after some time.
  unfoldable pub on_wait : ℕ → Saver A → Saver A × List (Effect A)
  on_wait n s = elim s.timer [
    | none ↦ (s, [])
    | some (left, v) ↦
        if leb left n
        then (record s { timer = none }, patches v ∷ [])
        else (record s { timer = some (left - n, v) }, [])
  ]

  unfoldable pub step : Bool → Event A → Saver A → Saver A × List (Effect A)
  unfolding on_change on_wait
  step local (changes v) s = on_change local v s
  step local (waits n) s = on_wait n s

  -- A session, with all its effects in order.
  unfoldable pub run : Bool → List (Event A) → Saver A → Saver A × List (Effect A)
  unfolding step
  run local [] s = (s, [])
  run local (e ∷ es) s =
      let (s', out) = step local e s in let (s'', out') = run local es s' in (s'', out ++ out')

  -- The page with its first value, after the first run of the effect, which only sets the ref.
  unfoldable pub mounted : A → Saver A
  unfolding on_change
  mounted v = (on_change false v (record { ready = false; value = v; timer = none })).0

  -- The value of the last PATCH that was sent, `old` before.
  abbrev pub requested : Option A → List (Effect A) → Option A
  requested old [] = old
  requested old (stores w ∷ es) = requested old es
  requested old (patches w ∷ es) = requested (some w) es

  -- What was stored last.
  abbrev pub stored : Option A → List (Effect A) → Option A
  stored old [] = old
  stored old (stores w ∷ es) = stored (some w) es
  stored old (patches w ∷ es) = stored old es

  -- The value of the last change.
  abbrev pub changed : Option A → List (Event A) → Option A
  changed old [] = old
  changed old (changes w ∷ es) = changed (some w) es
  changed old (waits n ∷ es) = changed old es
