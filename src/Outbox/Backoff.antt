-- ===== src/Outbox/Backoff.antt =====
-- The retry delay of `fail_outbox`, and what a failure does to the job.
use code_sementic_memory.Common.{
  ℕ, zero, suc, ◌+◌, ◌^◌, ◌≤◌, ◌≡◌, ap, ◌⊎◌, inl, inr, min, max, arith,
}
use native.Mathlib.Nat.{pow-suc}
use code_sementic_memory.Outbox.{retry_delay}

-- 2 ^ k for the eleven exponents that occur
power_bounds : (k : ℕ) → 1 ≤ k → k ≤ 10 → (2 ≤ 2 ^ k) × (2 ^ k ≤ 1024)
power_bounds zero h l = absurd (omega arith)
power_bounds (suc zero) h l = (omega arith, omega arith)
power_bounds (suc (suc zero)) h l = (omega arith, omega arith)
power_bounds (suc (suc (suc zero))) h l = (omega arith, omega arith)
power_bounds (suc (suc (suc (suc zero)))) h l = (omega arith, omega arith)
power_bounds (suc (suc (suc (suc (suc zero))))) h l = (omega arith, omega arith)
power_bounds (suc (suc (suc (suc (suc (suc zero)))))) h l = (omega arith, omega arith)
power_bounds (suc (suc (suc (suc (suc (suc (suc zero))))))) h l = (omega arith, omega arith)
power_bounds (suc (suc (suc (suc (suc (suc (suc (suc zero)))))))) h l = (omega arith, omega arith)
power_bounds (suc (suc (suc (suc (suc (suc (suc (suc (suc zero))))))))) h l =
    (omega arith, omega arith)
power_bounds (suc (suc (suc (suc (suc (suc (suc (suc (suc (suc zero)))))))))) h l =
    (omega arith, omega arith)
power_bounds (suc (suc (suc (suc (suc (suc (suc (suc (suc (suc (suc k))))))))))) h l =
    absurd (omega arith)

-- The default delay starts at two seconds, never falls from one attempt to the next, and stays at
-- 1024 seconds: the cap of 3600 is never reached.
pub retry_delay_bounds :
    (attempts : ℕ)
    → (2 ≤ retry_delay attempts)
      × (retry_delay attempts ≤ 1024)
      × (retry_delay attempts ≤ retry_delay (attempts + 1))
      × (10 ≤ attempts → retry_delay attempts ≡ 1024)
unfolding retry_delay
retry_delay_bounds attempts =
    let k = max 1 (min attempts 10) in
    let k' = max 1 (min (attempts + 1) 10) in
    let bounds = power_bounds k (omega arith) (omega arith) in
    let bounds' = power_bounds k' (omega arith) (omega arith) in
    let step : (k' ≡ k) ⊎ (k' ≡ suc k) = omega arith in
    (
      omega arith,
      omega arith,
      elim step [
        | inl e ↦ rw e (omega arith)
        | inr e ↦ omega (arith, ap (λ (n : ℕ). 2 ^ n) e, pow-suc 2 k)
      ],
      λ h. let e : k ≡ 10 = omega arith in rw e (omega arith),
    )
