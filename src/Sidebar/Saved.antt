-- ===== src/Sidebar/Saved.antt =====
-- What the savers of frontend/app.jsx send and store.
use mathlib.Core.List.{append-nil}
use korechat.Common.{
  ◌-◌, ◌∷◌, [], ◌++◌, ◌≡◌, ◌≤◌, ◌∙◌, refl, sym, ap, List, ℕ, leb, Bool, true, false, Option, none,
  some, if◌then◌else◌, Bool-cases, Option-cases, inl, inr, arith,
}
use korechat.Sidebar.Savers.{
  Saver, Effect, stores, patches, Event, changes, waits, on_wait, step, run, mounted, requested,
  stored, changed, on_change,
}

module _ {ℓ} {A : Type ℓ} where
  -- The last PATCH has the last change, or a timer that runs for 800 ms at most will send that.
  data IsPending (sent last : Option A) (s : Saver A) : Type ℓ where
    sent_already : s.timer ≡ none → sent ≡ last → IsPending sent last s
    waiting :
        (left : ℕ) (v : A)
        → s.timer ≡ some (left, v)
        → last ≡ some v
        → left ≤ 800
        → IsPending sent last s

  record IsReady (sent last : Option A) (s : Saver A) : Type ℓ where
    pub ready : s.ready ≡ true
    pub pending : IsPending sent last s

  wait-IsReady :
      (n : ℕ) (s : Saver A) (sent last : Option A)
      → IsReady sent last s
      → IsReady (requested sent (on_wait n s).1) last (on_wait n s).0
  unfolding on_wait
  wait-IsReady n s sent last h = elim h.pending [
    | sent_already t e ↦ rw t (record { ready = h.ready; pending = sent_already refl e })
    | waiting left v t e le ↦ elim (Bool-cases (leb left n)) [
      | inl b ↦ rw (t, b) (record { ready = h.ready; pending = sent_already refl (sym e) })
      | inr b ↦
          rw (t, b)
            (record { ready = h.ready; pending = waiting (left - n) v refl e (omega arith) })
    ]
  ]

  step-IsReady :
      (local : Bool) (e : Event A) (s : Saver A) (sent last : Option A)
      → IsReady sent last s
      → IsReady (requested sent (step local e s).1) (changed last (e ∷ [])) (step local e s).0
  unfolding step on_change on_wait
  step-IsReady true (changes v) s sent last h =
      rw h.ready (record { ready = refl; pending = waiting 800 v refl refl (omega arith) })
  step-IsReady false (changes v) s sent last h =
      rw h.ready (record { ready = refl; pending = waiting 800 v refl refl (omega arith) })
  step-IsReady local (waits n) s sent last h = wait-IsReady n s sent last h

  requested-append :
      (v : Option A) (es out : List (Effect A))
      → requested v (es ++ out) ≡ requested (requested v es) out
  requested-append v [] out = refl
  requested-append v (stores w ∷ es) out = requested-append v es out
  requested-append v (patches w ∷ es) out = requested-append (some w) es out

  changed-cons :
      (old : Option A) (e : Event A) (es : List (Event A))
      → changed old (e ∷ es) ≡ changed (changed old (e ∷ [])) es
  changed-cons old (changes w) es = refl
  changed-cons old (waits n) es = refl

  run-IsReady :
      (local : Bool) (es : List (Event A)) (s : Saver A) (sent last : Option A)
      → IsReady sent last s
      → IsReady (requested sent (run local es s).1) (changed last es) (run local es s).0
  unfolding run
  run-IsReady local [] s sent last h = h
  run-IsReady local (e ∷ es) s sent last h =
      rw
        (
          changed-cons last e es,
          requested-append sent (step local e s).1 (run local es (step local e s).0).1,
        )
        (run-IsReady local es (step local e s).0 (requested sent (step local e s).1)
          (changed last (e ∷ [])) (step-IsReady local e s sent last h))

  -- A page that is left alone for 800 ms has sent the last change.
  quiet-IsReady :
      (s : Saver A) (sent last : Option A)
      → IsReady sent last s
      → requested sent (on_wait 800 s).1 ≡ last
  unfolding on_wait
  quiet-IsReady s sent last h = elim h.pending [
    | sent_already t e ↦ rw t e
    | waiting left v t e le ↦ let b : leb left 800 ≡ true = ground arith in rw (t, b) (sym e)
  ]

  run_last :
      (local : Bool) (es : List (Event A)) (e : Event A) (s : Saver A) (v : Option A)
      → requested v (run local (es ++ e ∷ []) s).1
        ≡ requested (requested v (run local es s).1) (step local e (run local es s).0).1
  unfolding run
  run_last local [] e s v = ap (requested v) (append-nil (step local e s).1)
  run_last local (d ∷ es) e s v =
      requested-append v (step local d s).1 (run local (es ++ e ∷ []) (step local d s).0).1
      ∙ run_last local es e (step local d s).0 (requested v (step local d s).1)
      ∙ ap (λ x. requested x (step local e (run local es (step local d s).0).0).1)
          (sym (requested-append v (step local d s).1 (run local es (step local d s).0).1))

  stored-append :
      (v : Option A) (es out : List (Effect A)) → stored v (es ++ out) ≡ stored (stored v es) out
  stored-append v [] out = refl
  stored-append v (stores w ∷ es) out = stored-append (some w) es out
  stored-append v (patches w ∷ es) out = stored-append v es out

  stored-wait : (n : ℕ) (s : Saver A) (v : Option A) → stored v (on_wait n s).1 ≡ v
  unfolding on_wait
  stored-wait n s v = elim (Option-cases s.timer) [
    | inl e ↦ rw e refl
    | inr ((left, w), e) ↦ elim (Bool-cases (leb left n)) [
      | inl b ↦ rw (e, b) refl
      | inr b ↦ rw (e, b) refl
    ]
  ]

  stored-step :
      (local : Bool) (e : Event A) (s : Saver A) (v : Option A)
      → s.ready ≡ true
      → stored v (step local e s).1 ≡ (if local then changed v (e ∷ []) else v)
  unfolding step on_change
  stored-step true (changes w) s v r = rw r refl
  stored-step false (changes w) s v r = rw r refl
  stored-step true (waits n) s v r = stored-wait n s v
  stored-step false (waits n) s v r = stored-wait n s v

  mounted-IsReady : (v : A) → IsReady none none (mounted v)
  unfolding mounted on_change
  mounted-IsReady v = record { ready = refl; pending = sent_already refl refl }

  stored-run_local :
      (es : List (Event A)) (s : Saver A) (sent last v : Option A)
      → IsReady sent last s
      → stored v (run true es s).1 ≡ changed v es
  unfolding run
  stored-run_local [] s sent last v h = refl
  stored-run_local (e ∷ es) s sent last v h =
      let h' = step-IsReady true e s sent last h in
      rw
        (
          stored-append v (step true e s).1 (run true es (step true e s).0).1,
          stored-step true e s v h.ready,
          changed-cons v e es,
        )
        (stored-run_local es (step true e s).0 _ _ (changed v (e ∷ [])) h')

  stored-run_other :
      (es : List (Event A)) (s : Saver A) (sent last v : Option A)
      → IsReady sent last s
      → stored v (run false es s).1 ≡ v
  unfolding run
  stored-run_other [] s sent last v h = refl
  stored-run_other (e ∷ es) s sent last v h =
      let h' = step-IsReady false e s sent last h in
      rw
        (
          stored-append v (step false e s).1 (run false es (step false e s).0).1,
          stored-step false e s v h.ready,
        )
        (stored-run_other es (step false e s).0 _ _ v h')

  stored-run :
      (local : Bool) (es : List (Event A)) (v : A)
      → stored none (run local es (mounted v)).1 ≡ (if local then changed none es else none)
  stored-run true es v = stored-run_local es (mounted v) none none none (mounted-IsReady v)
  stored-run false es v = stored-run_other es (mounted v) none none none (mounted-IsReady v)

  -- Whatever changes of the marks, the folds, the default channels or the ignored nicks there were
  -- since the page was mounted, with whatever value, and however far apart: 800 ms after the last
  -- event the last PATCH that was sent has the last change, and none was sent if there was no
  -- change. The marks are also stored in the browser, at every moment with the last change; the
  -- other choices are not. Whether the server takes a PATCH is not considered.
  pub saved_when_quiet :
      (local : Bool) (es : List (Event A)) (v : A)
      → (requested none (run local (es ++ waits 800 ∷ []) (mounted v)).1 ≡ changed none es)
        × (stored none (run local es (mounted v)).1 ≡ (if local then changed none es else none))
  unfolding step
  saved_when_quiet local es v = (
    run_last local es (waits 800) (mounted v) none
        ∙ quiet-IsReady (run local es (mounted v)).0 (requested none (run local es (mounted v)).1)
            (changed none es) (run-IsReady local es (mounted v) none none (mounted-IsReady v)),
    stored-run local es v,
  )
