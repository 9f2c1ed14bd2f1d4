-- ===== src/Store/Work.antt =====
-- internal/store/work.go: leases on the transcript work of a thread. The lease's token, which
-- `rand.Text` draws, is an argument of `claim`, and so is the token of a queued reaction job.
pub mod Effects
pub mod Claims
pub mod Generations
use slackbot_hubspot.Base.{
  ◌+◌, max, String, Bool, true, false, not, ◌&&◌, Option, none, some, List, [], ◌∷◌, ◌==◌, ltb,
  is_set, if◌then◌else◌,
}
use slackbot_hubspot.Domain.{
  Time, zero_time, after, is_zero_time, ℤ, is_nonpositive, add_time, no_work, invalid, Result, ok,
  err, ◌>>=◌, ThreadKey, State, is_failed, Thread, Lease, Completion, Failure, WorkCounts,
}
use slackbot_hubspot.Backend.{Table, scan, commit}
use slackbot_hubspot.Store.Database.{Db, put_thread, clear_lease, read_leased}
use slackbot_hubspot.Store.Summaries.{bounded_error}
use slackbot_hubspot.Store.Outbox.{queue_reactions}

-- The thread has work that has not failed for good.
unfoldable pub is_eligible : Thread → Bool
is_eligible thread =
    thread.active
    && ltb thread.completed_generation thread.requested_generation
    && not (is_failed thread.state)

-- The negation of the condition under which `Claim` goes on to the next thread.
unfoldable pub is_claimable : Time → Thread → Bool
is_claimable now thread =
    is_eligible thread
    && not (after thread.next_attempt now)
    && not (after thread.lease_expires now)

-- The thread as a claim leaves it.
unfoldable pub claimed_thread : String → Time → ℤ → Thread → Thread
claimed_thread token now duration thread = record thread {
  attempts = thread.attempts + 1;
  lease_expires = add_time now duration;
  lease_token = token;
  state = State.running;
}

unfoldable pub claimed_lease : String → Time → ℤ → Thread → Lease
unfolding claimed_thread
claimed_lease token now duration thread =
    let claimed = claimed_thread token now duration thread in
    record {
      expires = claimed.lease_expires;
      generation = claimed.requested_generation;
      recovered = is_set thread.lease_token;
      revision = claimed.revision;
      thread = claimed;
      token = claimed.lease_token;
    }

-- The loop of `Claim` over the scanned entries: the first that passes the test.
unfoldable pub first_claimable : Time → Table ThreadKey Thread → Option (ThreadKey × Thread)
first_claimable now [] = none
first_claimable now ((key, thread) ∷ rest) =
    if is_claimable now thread then some (key, thread) else first_claimable now rest

abbrev pub claim_found : String → Time → ℤ → Db → Option (ThreadKey × Thread) → Result (Lease × Db)
claim_found token now duration db none = err no_work
claim_found token now duration db (some (key, thread)) = ok (
  claimed_lease token now duration thread,
  put_thread db key (claimed_thread token now duration thread),
)

unfoldable pub claim : String → Time → ℤ → Db → Result Lease × Db
unfolding commit
claim token now duration db =
    if is_nonpositive duration
    then (err (invalid "lease duration must be positive"), db)
    else commit (λ db. claim_found token now duration db (first_claimable now db.threads)) db

-- `Validate` only reads.
unfoldable pub validate_lease : Lease → Time → Db → Result (Unit {0})
validate_lease lease now db = do _ ← read_leased db lease now; ok tt

unfoldable pub renew : Lease → Time → ℤ → Db → Result (Unit {0}) × Db
unfolding commit
renew lease now duration db =
    if is_nonpositive duration
    then (err (invalid "lease duration must be positive"), db)
    else commit
        (λ db. do
          thread ← read_leased db lease now
          ok (
            tt,
            put_thread db thread.key (record thread { lease_expires = add_time now duration }),
          ))
        db

-- `SaveNote` refuses to replace a note by another.
abbrev pub set_note : String → Thread → Result Thread
set_note note_id thread =
    if is_set thread.note_id && not (thread.note_id == note_id)
    then err (invalid "thread already has a different note mapping")
    else ok (record thread { note_id = note_id })

unfoldable pub save_note : Lease → String → Time → Db → Result (Unit {0}) × Db
unfolding commit
save_note lease note_id now db =
    if note_id == ""
    then (err (invalid "note ID is required"), db)
    else commit
        (λ db. do
          thread ← read_leased db lease now
          saved ← set_note note_id thread
          ok (tt, put_thread db saved.key saved))
        db

-- The thread as a completion leaves it: first what all completions do, then the retry of partial
-- attachments, or the state that later requests ask for.
abbrev pub synced_thread : Lease → Completion → Time → Thread → Thread
synced_thread lease completion now thread = clear_lease (record thread {
  completed_generation = max thread.completed_generation lease.generation;
  current_error = [];
  last_success = now;
  last_synced_message_ts = completion.last_message_ts;
  next_attempt = zero_time;
  partial_error = bounded_error completion.partial_error;
  state = State.up_to_date;
})

abbrev pub after_sync : Lease → Completion → Thread → Thread
after_sync lease completion thread =
    if not (is_zero_time completion.retry_at)
    then record thread {
      next_attempt = completion.retry_at;
      requested_generation = max thread.requested_generation (lease.generation + 1);
      state = State.retrying;
    }
    else record thread {
      attempts = 0;
      state =
          if ltb thread.completed_generation thread.requested_generation
          then State.pending
          else thread.state;
    }

unfoldable pub completed_thread : Lease → Completion → Time → Thread → Thread
completed_thread lease completion now thread =
    after_sync lease completion (synced_thread lease completion now thread)

unfoldable pub complete : String → Lease → Completion → Time → Db → Result (Unit {0}) × Db
unfolding commit
complete token lease completion now = commit λ db. do
  thread ← read_leased db lease now
  let done = completed_thread lease completion now thread
  ok (tt, queue_reactions token done.key (put_thread db done.key done))

-- The thread as a failure leaves it: newer requests than the lease's start afresh.
abbrev pub retry_thread : Failure → Thread → Thread
retry_thread failure thread =
    if failure.permanent
    then record thread { next_attempt = zero_time; state = State.failed }
    else record thread { next_attempt = failure.next_attempt; state = State.retrying }

abbrev pub after_failure : Lease → Thread → Thread
after_failure lease thread =
    if ltb lease.generation thread.requested_generation
    then record thread { attempts = 0; next_attempt = zero_time; state = State.pending }
    else thread

unfoldable pub failed_thread : Lease → Failure → Thread → Thread
failed_thread lease failure thread = after_failure lease (
    clear_lease (
      retry_thread failure (record thread {
        current_error = bounded_error failure.error;
        historical_error = bounded_error failure.error;
      })))

unfoldable pub fail : String → Lease → Failure → Time → Db → Result (Unit {0}) × Db
unfolding commit
fail token lease failure now = commit λ db. do
  thread ← read_leased db lease now
  let done = failed_thread lease failure thread
  ok (tt, queue_reactions token done.key (put_thread db done.key done))

-- The loop of `Counts`.
unfoldable pub count_from : Time → WorkCounts → List Thread → WorkCounts
count_from now counts [] = counts
count_from now counts (thread ∷ rest) =
    count_from now
      (if not (is_eligible thread)
        then counts
        else if after thread.lease_expires now
        then record counts { leased = counts.leased + 1 }
        else record counts { pending = counts.pending + 1 })
      rest

unfoldable pub counts : Time → Db → WorkCounts
unfolding count_from
counts now db = count_from now (record { leased = 0; pending = 0 }) (scan db.threads)
