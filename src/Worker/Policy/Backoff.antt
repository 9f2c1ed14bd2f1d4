-- ===== src/Worker/Policy/Backoff.antt =====
-- internal/worker/worker.go, `retryAt` and `failure`: the delays between attempts.
use native.Mathlib.Nat.{mul-le-mul_left, mul_assoc, pow-succ'}
use slackbot_hubspot.Base.{
  ℕ, zero, suc, ◌+◌, ◌-◌, ◌*◌, ◌/◌, ◌^◌, ◌≤◌, ◌<◌, min, max, ◌≡◌, sym, ap, ◌∙◌, false, arith,
  Bool-cases, inl, inr, ltb,
}
use slackbot_hubspot.Domain.{Time, ℤ, pos, negsuc}
use slackbot_hubspot.Domain.Remote.{Fault}
use slackbot_hubspot.Worker.Policy.{
  Options, doubled, backoff, jittered, at_least, patient, retry_at, failure,
}

double_pow : (n b : ℕ) → b * 2 ^ suc n ≡ b * 2 * 2 ^ n
double_pow n b = ap (λ x. b * x) (pow-succ' 2 n) ∙ sym (mul_assoc b 2 (2 ^ n))

pow_pos : (n : ℕ) → 1 ≤ 2 ^ n
pow_pos zero = omega arith
pow_pos (suc n) = omega (arith, pow_pos n)

scaled : (n b : ℕ) → b ≤ b * 2 ^ n
scaled n b = let h = mul-le-mul_left b (pow_pos n) in omega (arith, h)

-- The loop of `retryAt` doubles the backoff until it meets the maximum.
doubled_lem : (most n b : ℕ) → min (doubled most n b) most ≡ min (b * 2 ^ n) most
unfolding doubled
doubled_lem most zero b = omega arith
doubled_lem most (suc n) b =
    let half = scaled n (b * 2) in
    let same = double_pow n b in
    let rest = doubled_lem most n (b * 2) in
    let less = scaled (suc n) b in
    elim (Bool-cases (ltb b most)) [
      | inr over ↦ rw (over, doubled) (ground arith)
      | inl below ↦ elim (Bool-cases (ltb (most / 2) b)) [
        | inl near ↦ rw (below, doubled) (rw (near, doubled) (ground arith))
        | inr far ↦ rw (below, doubled) (rw (far, doubled) (ground arith))
      ]
    ]

-- The backoff before the n-th retry is the base doubled n - 1 times, and the maximum at most.
pub backoff_lem :
    (o : Options) (attempts : ℕ)
    → backoff o attempts ≡ min (o.backoff_base * 2 ^ (attempts - 1)) o.backoff_max
unfolding backoff
backoff_lem o attempts = doubled_lem o.backoff_max (attempts - 1) o.backoff_base

at_least_lem : (z : ℤ) (b : ℕ) → at_least b z ≡ max b (at_least 0 z)
at_least_lem (pos n) b = omega arith
at_least_lem (negsuc n) b = omega arith

patient_lem : (fault : Fault) (b : ℕ) → patient fault b ≡ max b (patient fault 0)
patient_lem (Fault.remote e) b = at_least_lem e.retry_after b
patient_lem (Fault.stored e) b = omega arith
patient_lem Fault.canceled b = omega arith
patient_lem Fault.deadline_exceeded b = omega arith
patient_lem (Fault.other s) b = omega arith

backoff-le-max : (o : Options) (attempts : ℕ) → backoff o attempts ≤ o.backoff_max
unfolding backoff
backoff-le-max o attempts = omega arith

retry_at_bounds :
    (o : Options) (fault : Fault) (attempts jitter : ℕ) (now : Time)
    → jitter < max (backoff o attempts / 2) 1
    → 2 ≤ backoff o attempts
    → (now + backoff o attempts / 2 ≤ retry_at o fault attempts jitter now)
      × (now + patient fault 0 ≤ retry_at o fault attempts jitter now)
      × (retry_at o fault attempts jitter now ≤ now + max o.backoff_max (patient fault 0))
unfolding retry_at jittered
retry_at_bounds o fault attempts jitter now j b =
    let e = patient_lem fault (backoff o attempts / 2 + jitter) in
    let m = backoff-le-max o attempts in (omega (arith, e), omega (arith, e), omega (arith, e, m))

-- A failure that is tried again, with a jitter that `rand.Int64N` may draw, waits for at least half
-- of the backoff, and for as long as the remote side asked; and no longer than the maximum backoff
-- unless it was asked to.
pub failure_waits :
    (o : Options) (fault : Fault) (attempts jitter : ℕ) (now : Time)
    → jitter < max (backoff o attempts / 2) 1
    → 2 ≤ backoff o attempts
    → (failure o fault attempts jitter now).permanent ≡ false
    → (now + backoff o attempts / 2 ≤ (failure o fault attempts jitter now).next_attempt)
      × (now + patient fault 0 ≤ (failure o fault attempts jitter now).next_attempt)
      × ((failure o fault attempts jitter now).next_attempt
          ≤ now + max o.backoff_max (patient fault 0))
unfolding failure
failure_waits o fault attempts jitter now j b p =
    let bounds = retry_at_bounds o fault attempts jitter now j b in
    (ground (arith, bounds.0), ground (arith, bounds.1), ground (arith, bounds.2))
