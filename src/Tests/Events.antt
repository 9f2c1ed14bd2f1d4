-- ===== src/Tests/Events.antt =====
-- Events on the thread of the samples: a link, and the commands that follow.
use slackbot_hubspot.Base.{refl, ◌≡◌, true, false, some, [], ◌∷◌, arith}
use slackbot_hubspot.Base.Bytes.{bytes}
use slackbot_hubspot.Domain.{ok, Command, Kind, Event, Thread, RecordResult, Outcome}
use slackbot_hubspot.Backend.{get, put, commit}
use slackbot_hubspot.Store.Keys.{thread_keyed, event_keyed, action_keyed, notification_keyed}
use slackbot_hubspot.Store.Keys.Apart.{Subject, stored_name-injective}
use slackbot_hubspot.Store.Timestamps.{newer}
use slackbot_hubspot.Store.Database.{Db, empty_db, find_thread, put_thread}
use slackbot_hubspot.Store.Threads.{IsConsistent}
use slackbot_hubspot.Store.Records.Decisions.{
  Decision, decide, decide_link, decide_command, decide_tracking, linked_thread, changed_to,
  tracking_command, synced_request, untracked_thread,
}
use slackbot_hubspot.Store.Records.{
  is_complete, is_duplicate, has_action, apply_decision, updates_tracking, duplicate_result,
  decision_result, record_event,
}
use slackbot_hubspot.Store.Records.Cases.{record_event-decided}
use slackbot_hubspot.Store.Records.Laws.{
  record_twice, message_acts_once, record_event-returns_stored,
}
use slackbot_hubspot.Tests.Samples.{
  rendering, key, event, link_event, sync_event, untrack_event, linked, linked_db, synced_db,
}

abbrev link_decision : Decision
link_decision = record {
  thread = some linked;
  changed = true;
  reply = b'L' ∷ [];
  blocks = [];
  outcome = Outcome.linked;
}

link_event-recorded :
    (record_event rendering link_event empty_db).0 ≡ ok (decision_result link_decision)
unfolding record_event commit is_complete is_duplicate has_action get decide decide_link
link_event-recorded = refl

record_twice_example :
    record_event rendering link_event linked_db ≡ (ok duplicate_result, linked_db)
record_twice_example =
    record_twice rendering link_event empty_db (decision_result link_decision) link_event-recorded

linked-found : find_thread linked_db key ≡ some linked
linked-found =
    record_event-returns_stored rendering link_event empty_db (decision_result link_decision)
      (unfold get in tt) link_event-recorded refl

stored_name-injective_example : Subject.thread link_event.key ≡ Subject.thread key
stored_name-injective_example =
    stored_name-injective (Subject.thread link_event.key) (Subject.thread key) refl

-- The same message, reported by another event.
abbrev reported_again : Event
reported_again = event Kind.command Command.sync "E9" "3.000001" 310

abbrev sync_result : RecordResult
sync_result = record {
  duplicate = false;
  outcome = Outcome.queued;
  thread = some (synced_request sync_event (record linked { last_command_ts = "3.000001" }));
}

sync_event-first : is_duplicate sync_event linked_db ≡ false
unfolding is_duplicate has_action record_event commit is_complete get put decide decide_link
    apply_decision updates_tracking
sync_event-first = refl

sync_event-recorded : (record_event rendering sync_event linked_db).0 ≡ ok sync_result
sync_event-recorded =
    rw
      (record_event-decided rendering sync_event linked_db
        (changed_to (synced_request sync_event (record linked { last_command_ts = "3.000001" }))
          (bytes "Sync queued.") Outcome.queued)
        (unfold is_complete in refl) sync_event-first
        (rw linked-found (
          unfold decide decide_command decide_tracking tracking_command newer linked_thread in
          refl)))
      refl

-- The thread after a command that was sent at "3.000001".
abbrev commanded : Thread
commanded = record linked { last_command_ts = "3.000001" }

abbrev stale_decision : Decision
stale_decision = record {
  thread = some commanded;
  changed = false;
  reply = bytes "Ignored an older or already applied tracking command.";
  blocks = [];
  outcome = Outcome.stale;
}

untrack_event-first : is_duplicate untrack_event linked_db ≡ false
unfolding is_duplicate has_action record_event commit is_complete get put decide decide_link
    apply_decision updates_tracking
untrack_event-first = refl

-- The thread after an `untrack` at "3.000001".
abbrev stopped : Thread
stopped = untracked_thread untrack_event commanded

abbrev stopped_db : Db
stopped_db = put_thread empty_db key stopped

stopped-IsConsistent : IsConsistent stopped
unfolding untracked_thread linked_thread
stopped-IsConsistent = record {
  ordered = omega arith;
  unleased = λ h. refl;
  leased = refl;
  activity = refl;
  settled = λ h. cc h;
  waiting = λ h. cc h;
}

message_acts_once_example :
    record_event rendering reported_again synced_db ≡ (ok duplicate_result, synced_db)
message_acts_once_example =
    message_acts_once rendering sync_event linked_db sync_result reported_again sync_event-recorded
      refl (unfold has_action in refl) (unfold has_action in refl) refl (unfold is_complete in refl)
