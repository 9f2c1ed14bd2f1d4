-- ===== src/Worker/Policy.antt =====
-- internal/worker/worker.go, `retryAt`, `retryable`, `safeError`, `failure`: when work is tried
-- again. The jitter that `rand.Int64N` draws is an argument. Durations of the options are natural
-- numbers of nanoseconds; no value here exceeds the larger of the base, the maximum, and the
-- clock's time after them, so that none wraps.
pub mod Backoff
use slackbot_hubspot.Base.{
  ℕ, zero, suc, ◌+◌, ◌-◌, ◌*◌, ◌/◌, min, max, Bool, true, false, not, ◌||◌, ltb, leb, if◌then◌else◌,
}
use slackbot_hubspot.Base.Bytes.{bytes}
use slackbot_hubspot.Domain.{
  Time, zero_time, ℤ, pos, negsuc, Bytes, Error, lease_lost, not_found, no_work, invalid, Failure,
}
use slackbot_hubspot.Domain.Remote.{
  RemoteError, message_of, Fault, remote, stored, canceled, deadline_exceeded, other,
}

-- The options that the policy reads.
pub record Options : Type 0 where
  pub backoff_base : ℕ
  pub backoff_max : ℕ
  pub max_attempts : ℕ

-- The loop of `retryAt`, with the rounds that are left.
unfoldable pub doubled : ℕ → ℕ → ℕ → ℕ
doubled most zero backoff = backoff
doubled most (suc rounds) backoff =
    let rest = doubled most rounds (backoff * 2) in
    if ltb backoff most then (if ltb (most / 2) backoff then most else rest) else backoff

unfoldable pub backoff : Options → ℕ → ℕ
backoff o attempts = min (doubled o.backoff_max (attempts - 1) o.backoff_base) o.backoff_max

-- Equal jitter.
unfoldable pub jittered : ℕ → ℕ → ℕ
jittered b jitter = b / 2 + jitter

-- `max(backoff, remote.RetryAfter)`
abbrev pub at_least : ℕ → ℤ → ℕ
at_least b (pos n) = max b n
at_least b (negsuc n) = b

abbrev pub patient : Fault → ℕ → ℕ
patient (remote e) b = at_least b e.retry_after
patient _ b = b

unfoldable pub retry_at : Options → Fault → ℕ → ℕ → Time → Time
retry_at o fault attempts jitter now = now + patient fault (jittered (backoff o attempts) jitter)

unfoldable pub retryable : Fault → Bool
retryable (remote e) = e.temporary
retryable (stored Error.lease_lost) = false
retryable _ = true

unfoldable pub safe_error : Fault → Bytes
safe_error (remote e) = message_of e
safe_error (stored Error.no_work) = bytes "attachment pending or unavailable"
safe_error (stored Error.lease_lost) = bytes "work invalidated"
safe_error canceled = bytes "operation cancelled"
safe_error deadline_exceeded = bytes "operation timed out"
safe_error _ = bytes "integration operation failed"

-- `failure`
unfoldable pub failure : Options → Fault → ℕ → ℕ → Time → Failure
failure o fault attempts jitter now =
    let permanent = not (retryable fault) || leb o.max_attempts attempts in
    record {
      error = safe_error fault;
      next_attempt = if permanent then zero_time else retry_at o fault attempts jitter now;
      permanent = permanent;
    }
