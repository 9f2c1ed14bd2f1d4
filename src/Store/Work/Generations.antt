-- ===== src/Store/Work/Generations.antt =====
-- internal/store/work.go: a completion or a failure uses up no request that came after its claim.
use slackbot_hubspot.Base.{◌≡◌, true, false, not, arith, ltb, Bool-cases, inl, inr, if◌then◌else◌}
use slackbot_hubspot.Domain.{
  Time, after, zero_time, is_zero_time, State, Thread, Lease, Completion, Failure,
}
use slackbot_hubspot.Store.Threads.{Grants}
use slackbot_hubspot.Store.Work.{is_eligible, is_claimable, completed_thread, failed_thread}

module _ (t : Thread) (l : Lease) (active : t.active ≡ true) (g : Grants l t) where
  -- After a completion with no attachments to retry, the thread may be claimed, at any time,
  -- exactly if a request came after the claim; and it says "up-to-date" exactly if none did.
  pub completed_thread-is_claimable :
      (c : Completion) (now later : Time)
      → c.retry_at ≡ zero_time
      → (is_claimable later (completed_thread l c now t) ≡ ltb l.generation t.requested_generation)
        × ((completed_thread l c now t).state
            ≡ (if ltb l.generation t.requested_generation then State.pending else State.up_to_date))
  unfolding is_claimable is_eligible completed_thread
  completed_thread-is_claimable c now later z =
      rw (z, completed_thread) (ground arith, ground arith)

  -- A completion that leaves attachments to retry makes the thread claimable from the retry's time
  -- on, and never before, whether or not there are later requests.
  pub completed_thread-retries :
      (c : Completion) (now later : Time)
      → is_zero_time c.retry_at ≡ false
      → is_claimable later (completed_thread l c now t) ≡ not (after c.retry_at later)
  unfolding is_claimable is_eligible completed_thread
  completed_thread-retries c now later z = rw (z, completed_thread) (ground arith)

  -- After a failure the thread may be claimed at once if a request came after the claim, else
  -- never if the failure is permanent, and else from the next attempt's time on.
  pub failed_thread-is_claimable :
      (f : Failure) (later : Time)
      → is_claimable later (failed_thread l f t) ≡ (
          if ltb l.generation t.requested_generation
          then true
          else if f.permanent
          then false
          else not (after f.next_attempt later))
  unfolding is_claimable is_eligible failed_thread
  failed_thread-is_claimable f later = elim (Bool-cases f.permanent) [
    | inl forever ↦ elim (Bool-cases (ltb l.generation t.requested_generation)) [
      | inl more ↦ rw (forever, failed_thread) (rw (more, failed_thread) (ground arith))
      | inr none_new ↦ rw (forever, failed_thread) (rw (none_new, failed_thread) (ground arith))
    ]
    | inr soon ↦ elim (Bool-cases (ltb l.generation t.requested_generation)) [
      | inl more ↦ rw (soon, failed_thread) (rw (more, failed_thread) (ground arith))
      | inr none_new ↦ rw (soon, failed_thread) (rw (none_new, failed_thread) (ground arith))
    ]
  ]
