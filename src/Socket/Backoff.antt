-- ===== src/Socket/Backoff.antt =====
-- The delays of `scheduleRetry` (frontend/app.jsx).
use korechat.Common.{ℕ, zero, suc, ◌+◌, ◌*◌, ◌^◌, ◌≤◌, ◌≡◌, refl, min, arith}
use native.Mathlib.Nat.{pow-suc}
use korechat.Socket.{retry_delay}

one-le-pow : (n : ℕ) → 1 ≤ 2 ^ n
one-le-pow zero = omega arith
one-le-pow (suc n) = omega (arith, pow-suc 2 n, one-le-pow n)

-- Each delay is twice the one before, up to half a minute.
pub retry_delay-suc : (n : ℕ) → retry_delay (suc n) ≡ min (2 * retry_delay n) 30000
unfolding retry_delay
retry_delay-suc n = omega (arith, pow-suc 2 n)

pub retry_delay_bounds : (n : ℕ) → (1000 ≤ retry_delay n) × (retry_delay n ≤ 30000)
unfolding retry_delay
retry_delay_bounds n = omega (arith, one-le-pow n)

-- From the sixth attempt in a row the delay is half a minute.
pub retry_delay_capped : (n : ℕ) → retry_delay (n + 5) ≡ 30000
retry_delay_capped zero = unfold retry_delay in refl
retry_delay_capped (suc n) =
    let e : suc n + 5 ≡ suc (n + 5) = omega arith in
    rw e (omega (arith, retry_delay-suc (n + 5), retry_delay_capped n))
