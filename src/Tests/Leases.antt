-- ===== src/Tests/Leases.antt =====
-- A lease on the thread of the samples, in time and too late.
use slackbot_hubspot.Base.{refl, ◌≡◌, true, false, not, some, suc, ltb, arith, if◌then◌else◌}
use slackbot_hubspot.Domain.{pos, err, lease_lost, State, after, key_beq}
use slackbot_hubspot.Backend.{get, put}
use slackbot_hubspot.Store.Keys.{thread_keyed}
use slackbot_hubspot.Store.Records.Decisions.{linked_thread}
use slackbot_hubspot.Store.Database.{Db, empty_db, find_thread, put_thread, holds}
use slackbot_hubspot.Store.Threads.{Grants}
use slackbot_hubspot.Store.Work.{
  is_claimable, claimed_thread, claimed_lease, completed_thread, failed_thread, renew, save_note,
  complete, fail,
}
use slackbot_hubspot.Store.Work.Effects.{stale_lease_refused}
use slackbot_hubspot.Store.Work.Generations.{
  completed_thread-is_claimable, failed_thread-is_claimable,
}
use slackbot_hubspot.Tests.Samples.{key, completion, failure, running, lease}

abbrev running_db : Db
running_db = put_thread empty_db key running

running-found : find_thread running_db lease.thread.key ≡ some running
unfolding put get claimed_lease claimed_thread linked_thread key_beq
running-found = refl

stale_lease_refused_example :
    (renew lease 260 (pos (suc 59)) running_db ≡ (err lease_lost, running_db))
    × (save_note lease "N1" 260 running_db ≡ (err lease_lost, running_db))
    × (complete "r1" lease completion 260 running_db ≡ (err lease_lost, running_db))
    × (fail "r1" lease failure 260 running_db ≡ (err lease_lost, running_db))
stale_lease_refused_example =
    stale_lease_refused running_db lease 260 "r1" "N1" completion failure running 59 running-found
      (unfold holds claimed_lease claimed_thread linked_thread in refl) refl

running-Grants : Grants lease running
unfolding claimed_lease claimed_thread linked_thread
running-Grants = record { fresh = omega arith; requested = omega arith; same_revision = refl }

running-active : running.active ≡ true
unfolding claimed_thread linked_thread
running-active = refl

completed_thread-is_claimable_example :
    (is_claimable 220 (completed_thread lease completion 210 running)
      ≡ ltb lease.generation running.requested_generation)
    × ((completed_thread lease completion 210 running).state ≡ (
        if ltb lease.generation running.requested_generation
        then State.pending
        else State.up_to_date))
completed_thread-is_claimable_example =
    completed_thread-is_claimable running lease running-active running-Grants completion 210 220
      refl

failed_thread-is_claimable_example : is_claimable 220 (failed_thread lease failure running) ≡ (
    if ltb lease.generation running.requested_generation
    then true
    else if failure.permanent
    then false
    else not (after failure.next_attempt 220))
failed_thread-is_claimable_example =
    failed_thread-is_claimable running lease running-active running-Grants failure 220
