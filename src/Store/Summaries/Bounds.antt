-- ===== src/Store/Summaries/Bounds.antt =====
-- The bound that `boundedError` keeps.
use slackbot_hubspot.Base.{ℕ, ◌≤◌, zero, suc, [], ◌∷◌, arith, length, take}
use slackbot_hubspot.Domain.{Bytes}
use slackbot_hubspot.Store.Summaries.{max_summary, cut, trim_space, bounded_error}

length-take-le : (n : ℕ) (xs : Bytes) → length (take n xs) ≤ n
length-take-le zero xs = omega arith
length-take-le (suc n) [] = omega arith
length-take-le (suc n) (x ∷ xs) = omega (arith, length-take-le n xs)

cut_bound : (n : ℕ) (b : Bytes) → length (cut n b) ≤ n
cut_bound n b = ground (arith, length-take-le n b)

-- A stored error summary has at most 1024 bytes.
pub length-bounded_error-le : (value : Bytes) → length (bounded_error value) ≤ 1024
unfolding bounded_error
length-bounded_error-le value = cut_bound max_summary (trim_space value)
