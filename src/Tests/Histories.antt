-- ===== src/Tests/Histories.antt =====
-- A history of the store: a link, a claim, a completion, and a message.
use slackbot_hubspot.Base.{refl, ◌≡◌, ◌≢◌, true, false, some, [], ◌∷◌, suc, ltb}
use mathlib.Core.List.{Memᴰ}
use slackbot_hubspot.Domain.{Upload, UploadState, pos, zero_time, Time, Thread, Lease, ok, key_beq}
use slackbot_hubspot.Backend.{get, put, commit}
use slackbot_hubspot.Store.Keys.{
  UploadKey, upload_keyed, thread_keyed, event_keyed, notification_keyed,
}
use slackbot_hubspot.Store.Database.{
  empty_db, put_upload, find_thread, holds, read_leased, validate,
}
use slackbot_hubspot.Store.Records.Decisions.{
  linked_thread, decide, decide_link, decide_message, messaged_thread,
}
use slackbot_hubspot.Store.Records.{
  is_complete, is_duplicate, has_action, apply_decision, updates_tracking, confirmation_record,
  record_event,
}
use slackbot_hubspot.Store.Outbox.{queue_reactions, is_queued}
use slackbot_hubspot.Store.Work.{
  claim, first_claimable, is_claimable, is_eligible, claimed_thread, claimed_lease, complete,
  completed_thread,
}
use slackbot_hubspot.Store.System.Copies.{copied_for_good}
use slackbot_hubspot.Store.System.{
  World, start, perform, Reach, here, next, records, claims, completes,
}
use slackbot_hubspot.Store.System.Moves.{issued-perform}
use slackbot_hubspot.Store.System.Safety.{one_holder, lost_for_good, GrownFrom, Reach-GrownFrom}
use slackbot_hubspot.Store.System.Leases.{Granted, claim-Granted, claim_progress}
use slackbot_hubspot.Store.System.Invariant.{Inv}
use slackbot_hubspot.Store.System.Invariant.Steps.{start-Reach-Inv}
use slackbot_hubspot.Tests.Samples.{
  rendering, key, link_event, message_event, completion, linked, running, lease, synced,
}

abbrev linked_world : World
linked_world = perform rendering (records link_event) start

abbrev claimed_world : World
claimed_world = perform rendering (claims "k1" 200 (pos 60)) linked_world

abbrev completed_world : World
completed_world = perform rendering (completes "r1" lease completion 210) claimed_world

abbrev later_world : World
later_world = perform rendering (records message_event) completed_world

find-linked_world : find_thread linked_world.db key ≡ some linked
unfolding perform record_event commit is_complete is_duplicate get put key_beq decide decide_link
    apply_decision has_action updates_tracking confirmation_record linked_thread
find-linked_world = refl

issued-claimed_world : claimed_world.issued ≡ lease ∷ []
unfolding perform record_event commit is_complete is_duplicate get put key_beq decide decide_link
    apply_decision has_action updates_tracking confirmation_record linked_thread claim
    first_claimable is_claimable is_eligible claimed_lease claimed_thread
issued-claimed_world = refl

find-claimed_world : find_thread claimed_world.db key ≡ some running
unfolding perform record_event commit is_complete is_duplicate get put key_beq decide decide_link
    apply_decision has_action updates_tracking confirmation_record linked_thread claim
    first_claimable is_claimable is_eligible claimed_lease claimed_thread
find-claimed_world = refl

-- Completed at 210, and linked to a message at 300.
abbrev requeued : Thread
requeued = messaged_thread message_event synced

find-completed_world : find_thread completed_world.db key ≡ some synced
unfolding perform record_event commit is_complete is_duplicate get put key_beq decide decide_link
    apply_decision has_action updates_tracking confirmation_record linked_thread claim
    first_claimable is_claimable is_eligible claimed_lease claimed_thread complete read_leased
    validate holds queue_reactions is_queued completed_thread
find-completed_world = refl

find-later_world : find_thread later_world.db key ≡ some requeued
unfolding perform record_event commit is_complete is_duplicate get put key_beq decide decide_link
    apply_decision has_action updates_tracking confirmation_record linked_thread claim
    first_claimable is_claimable is_eligible claimed_lease claimed_thread complete read_leased
    validate holds queue_reactions is_queued decide_message completed_thread
find-later_world = refl

linked_world-Reach : Reach rendering start linked_world
linked_world-Reach = next here (records link_event) tt

start-issued : linked_world.issued ≡ []
unfolding perform
start-issued = refl

claimed_world-Reach : Reach rendering start claimed_world
claimed_world-Reach =
    next linked_world-Reach (claims "k1" 200 (pos 60))
      (refl, λ l m. elim (rw start-issued at m) [ ])

lease-issued : Memᴰ lease claimed_world.issued
lease-issued = rw issued-claimed_world (Memᴰ.head refl)

completed_from_start : Reach rendering start completed_world
completed_from_start = next claimed_world-Reach (completes "r1" lease completion 210) lease-issued

message_Reach : Reach rendering completed_world later_world
message_Reach = next here (records message_event) tt

linked_to_later : Reach rendering linked_world later_world
linked_to_later =
    next
      (next (next here (claims "k1" 200 (pos 60)) (refl, λ l m. elim (rw start-issued at m) [ ]))
        (completes "r1" lease completion 210) lease-issued)
      (records message_event) tt

lease-still_issued : Memᴰ lease completed_world.issued
lease-still_issued =
    issued-perform rendering (completes "r1" lease completion 210) claimed_world lease lease-issued

synced-unheld : synced.lease_token ≢ lease.token
unfolding completed_thread claimed_lease claimed_thread
synced-unheld h = cc

claim-lease : (claim "k1" 200 (pos 60) linked_world.db).0 ≡ ok lease
unfolding perform record_event commit is_complete is_duplicate get put decide decide_link
    apply_decision has_action updates_tracking confirmation_record linked_thread claim
    first_claimable is_claimable is_eligible claimed_lease claimed_thread
claim-lease = refl

linked-is_claimable : is_claimable 200 linked ≡ true
unfolding is_claimable is_eligible linked_thread
linked-is_claimable = refl

running-holds : (now : Time) → ltb now 260 ≡ true → holds running lease now ≡ true
unfolding holds claimed_thread claimed_lease linked_thread
running-holds now h = h

synced_token : synced.lease_token ≡ ""
unfolding completed_thread
synced_token = refl

lease_key : lease.thread.key ≡ key
unfolding claimed_lease claimed_thread linked_thread
lease_key = refl

one_holder_example : lease ≡ lease
one_holder_example =
    one_holder rendering claimed_world lease lease running 210 220 claimed_world-Reach lease-issued
      lease-issued (running-holds 210 refl) (running-holds 220 refl)

lost_for_good_example : holds requeued lease 230 ≡ false
unfolding claimed_lease linked_thread
lost_for_good_example =
    lost_for_good rendering completed_world later_world lease synced requeued 230
      completed_from_start lease-still_issued find-completed_world synced-unheld message_Reach
      find-later_world

Reach-GrownFrom_example : GrownFrom linked later_world key
Reach-GrownFrom_example =
    Reach-GrownFrom rendering linked_world later_world key linked linked_world-Reach
      find-linked_world linked_to_later

start-Reach-Inv_example : Inv claimed_world
start-Reach-Inv_example = start-Reach-Inv rendering claimed_world-Reach

claim-Granted_example :
    Granted linked_world.db (claim "k1" 200 (pos 60) linked_world.db).1 lease 200 60
claim-Granted_example =
    claim-Granted rendering linked_world "k1" 200 60 linked_world-Reach refl lease claim-lease

claim_progress_example : (l : Lease) × ((claim "k1" 200 (pos (suc 59)) linked_world.db).0 ≡ ok l)
claim_progress_example =
    claim_progress "k1" 200 59 linked_world.db key linked find-linked_world linked-is_claimable

abbrev copied : Upload
copied = record {
  last_retry_ts = "";
  attempts = 1;
  current_error = [];
  file_id = "F1";
  hubspot_id = "H1";
  lease_expires = zero_time;
  lease_token = "";
  next_attempt = zero_time;
  state = UploadState.complete;
  workspace_id = "T1";
}

abbrev file_key : UploadKey
file_key = record { workspace = "T1"; file = "F1" }

abbrev copied_world : World
copied_world = record start { db = put_upload empty_db file_key copied }

copied_world-find : get copied_world.db.uploads file_key ≡ some copied
unfolding get put
copied_world-find = refl

copied_for_good_example :
    get (perform rendering (records link_event) copied_world).db.uploads file_key ≡ some copied
copied_for_good_example =
    copied_for_good rendering file_key copied (record { has_id = refl; unheld = refl }) copied_world
      (perform rendering (records link_event) copied_world) copied_world-find
      (next here (records link_event) tt)
