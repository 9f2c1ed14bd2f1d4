-- ===== src/Store/Threads/Mutations.antt =====
-- The threads that the work operations write are consistent.
use slackbot_hubspot.Base.{◌≡◌, true, arith, is_set, ltb, String, Bool-cases, inl, inr, eq_iff}
use slackbot_hubspot.Domain.{Time, is_zero_time, ℤ, Thread, Lease, Completion, Failure, ok}
use slackbot_hubspot.Store.Threads.{IsConsistent, Grants, Grows, Advances}
use slackbot_hubspot.Store.Work.{
  is_eligible, is_claimable, claimed_thread, claimed_lease, completed_thread, failed_thread,
  set_note,
}

module _ (t : Thread) (c : IsConsistent t) where
  pub claimed_thread-IsConsistent :
      (token : String) (now : Time) (duration : ℤ)
      → is_set token ≡ true
      → is_claimable now t ≡ true
      → IsConsistent (claimed_thread token now duration t)
  unfolding is_claimable is_eligible claimed_thread
  claimed_thread-IsConsistent token now duration s h = ground arith

  pub claimed_thread-Grows :
      (token : String) (now : Time) (duration : ℤ) → Grows t (claimed_thread token now duration t)
  unfolding claimed_thread
  claimed_thread-Grows token now duration = ground arith

  pub claimed_lease-Grants :
      (token : String) (now : Time) (duration : ℤ)
      → is_claimable now t ≡ true
      → Grants (claimed_lease token now duration t) (claimed_thread token now duration t)
  unfolding is_claimable is_eligible claimed_lease claimed_thread
  claimed_lease-Grants token now duration h = ground arith

  pub completed_thread-Advances :
      (l : Lease) (completion : Completion) (now : Time)
      → t.active ≡ true
      → Grants l t
      → Advances t (completed_thread l completion now t)
  unfolding completed_thread
  completed_thread-Advances l completion now a g =
      elim (Bool-cases (is_zero_time completion.retry_at)) [
        | inl never ↦ rw (never, completed_thread) (ground arith)
        | inr retry ↦ rw (retry, completed_thread) (ground arith)
      ]

  pub failed_thread-Advances :
      (l : Lease) (failure : Failure)
      → t.active ≡ true
      → is_set t.lease_token ≡ true
      → Advances t (failed_thread l failure t)
  unfolding failed_thread
  failed_thread-Advances l failure a s =
      elim (Bool-cases (ltb l.generation t.requested_generation)) [
        | inl newer ↦ elim (Bool-cases failure.permanent) [
          | inl forever ↦ rw (forever, failed_thread) (rw (newer, failed_thread) (ground arith))
          | inr soon ↦ rw (soon, failed_thread) (rw (newer, failed_thread) (ground arith))
        ]
        | inr same ↦ elim (Bool-cases failure.permanent) [
          | inl forever ↦ rw (forever, failed_thread) (rw (same, failed_thread) (ground arith))
          | inr soon ↦ rw (soon, failed_thread) (rw (same, failed_thread) (ground arith))
        ]
      ]

  pub renewed-Advances :
      (expires : Time)
      → is_set t.lease_token ≡ true
      → Advances t (record t { lease_expires = expires })
  renewed-Advances expires s = ground arith

  pub set_note-Advances : (note : String) (u : Thread) → set_note note t ≡ ok u → Advances t u
  set_note-Advances note u h = ground (arith, eq_iff t.note_id note)
