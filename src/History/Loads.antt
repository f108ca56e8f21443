-- ===== src/History/Loads.antt =====
-- Repeated loads of a window, and the cutoff of a request (frontend/app.jsx, `loadChannelHistory`).
use korechat.Common.{
  ℕ, zero, suc, ◌≤◌, ◌<◌, ◌∷◌, [], ◌≡◌, ◌⊎◌, refl, inl, inr, Text, text_eq_refl, set_has,
  set_has-set_add, List, All, All-imp, Bool, true, false, not, ◌&&◌, leb, Option, none, some, arith,
  if◌then◌else◌,
}
use korechat.Chat.{Clock, chan_key}
use korechat.Client.{Env, Refs}
use korechat.History.{oldest_of, load_channel_history}

module _ (clock : Clock) (env : Env) (refs : Refs) (net_id chan : Text) (limit : ℕ) where
  load_channel_history_loaded :
      set_has (chan_key net_id chan) refs.loaded_history ≡ true
      → load_channel_history clock env refs net_id chan limit false ≡ (refs, [])
  unfolding load_channel_history
  load_channel_history_loaded h = rw (h, load_channel_history)

  load_channel_history-marks :
      (force : Bool)
      → set_has
          (chan_key net_id chan)
          (load_channel_history clock env refs net_id chan limit force).0.loaded_history
        ≡ true
  unfolding load_channel_history
  load_channel_history-marks force =
      marks (not force && set_has (chan_key net_id chan) refs.loaded_history) refl
    where
      marks :
          (b : Bool)
          → (not force && set_has (chan_key net_id chan) refs.loaded_history) ≡ b
          → set_has
              (chan_key net_id chan)
              (load_channel_history clock env refs net_id chan limit force).0.loaded_history
            ≡ true
      marks true e = rw (e, load_channel_history) (ground arith)
      marks false e =
          rw (e, load_channel_history)
            (rw set_has-set_add (ground (arith, text_eq_refl (chan_key net_id chan))))

-- After a load of a window, forced or not, a second one that is not forced asks nothing and
-- changes nothing.
pub load_channel_history_once :
    (clock : Clock) (env : Env) (refs : Refs) (net_id chan : Text) (limit limit' : ℕ) (force : Bool)
    → load_channel_history clock env
        (load_channel_history clock env refs net_id chan limit force).0
        net_id
        chan
        limit'
        false
      ≡ ((load_channel_history clock env refs net_id chan limit force).0, [])
load_channel_history_once clock env refs net_id chan limit limit' force =
    load_channel_history_loaded clock env _ net_id chan limit'
      (load_channel_history-marks clock env refs net_id chan limit force)

-- The least of the positive times, or that there is none.
abbrev pub Least : Option ℕ → List ℕ → Type 0
Least none ts = All (λ t. t ≡ 0) ts
Least (some o) ts = (0 < o) × All (λ t. (t ≡ 0) ⊎ (o ≤ t)) ts

Least-zero : (o : Option ℕ) (ts : List ℕ) → Least o ts → Least o (0 ∷ ts)
Least-zero none ts h = (refl, h)
Least-zero (some o) ts h = (h.0, (inl refl, h.1))

Least-suc :
    (o : Option ℕ) (t : ℕ) (ts : List ℕ)
    → Least o ts
    → Least
        (elim o [ none ↦ some (suc t) | some o' ↦ some (if leb (suc t) o' then suc t else o') ])
        (suc t ∷ ts)
Least-suc none t ts h = (omega arith, (inr (omega arith), All-imp (λ x e. inl e) ts h))
Least-suc (some o) t ts h = by_test (leb (suc t) o) refl
  where
    lower : (x : ℕ) → (x ≡ 0) ⊎ (o ≤ x) → suc t ≤ o → (x ≡ 0) ⊎ (suc t ≤ x)
    lower x (inl e) l = inl e
    lower x (inr p) l = inr (omega arith)

    by_test : (b : Bool) → leb (suc t) o ≡ b → Least (some (if b then suc t else o)) (suc t ∷ ts)
    by_test true e =
        let l : suc t ≤ o = ground arith in
        (omega arith, (inr (omega arith), All-imp (λ x p. lower x p l) ts h.1))
    by_test false e = (h.0, (inr (ground arith), h.1))

-- The cutoff of a request is positive and at most every positive time; there is no cutoff exactly if
-- there is no such time.
pub oldest_of-Least : (ts : List ℕ) → Least (oldest_of ts) ts
unfolding oldest_of
oldest_of-Least [] = tt
oldest_of-Least (zero ∷ ts) = Least-zero (oldest_of ts) ts (oldest_of-Least ts)
oldest_of-Least (suc t ∷ ts) = Least-suc (oldest_of ts) t ts (oldest_of-Least ts)
