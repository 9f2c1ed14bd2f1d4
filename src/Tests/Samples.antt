-- ===== src/Tests/Samples.antt =====
-- A Slack thread that is linked to a ticket, and the events and leases of its first minutes.
use slackbot_hubspot.Base.{refl, String, false, [], ◌∷◌}
use slackbot_hubspot.Domain.{
  Time, zero_time, pos, ThreadKey, Thread, Command, Kind, Event, Lease, Completion, Failure,
}
use slackbot_hubspot.Store.Rendering.{Rendering}
use slackbot_hubspot.Store.Records.Decisions.{linked_thread}
use slackbot_hubspot.Store.Database.{Db, empty_db}
use slackbot_hubspot.Store.Records.{record_event}
use slackbot_hubspot.Store.Work.{claimed_thread, claimed_lease, completed_thread}

abbrev pub rendering : Rendering
rendering = record {
  help = λ bot invalid. (b'?' ∷ [], []);
  status = λ thread now. (b'!' ∷ [], []);
  help_nonempty = λ bot invalid. refl;
  status_nonempty = λ thread now. refl;
}

abbrev pub key : ThreadKey
key = record { channel_id = "C1"; thread_ts = "1.000001"; workspace_id = "T1" }

abbrev pub other_key : ThreadKey
other_key = record { channel_id = "C2"; thread_ts = "1.000001"; workspace_id = "T1" }

abbrev pub event : Kind → Command → String → String → Time → Event
event kind command id message_ts now = record {
  actor = "U1";
  command = command;
  id = id;
  key = key;
  kind = kind;
  message_ts = message_ts;
  now = now;
  reply_blocks = [];
  reply = b'L' ∷ [];
  ticket_id = "42";
  ticket_url = "https://example.org/42";
}

abbrev pub link_event : Event
link_event = event Kind.link Command.status "E1" "1.000001" 100

abbrev pub message_event : Event
message_event = event Kind.message Command.status "E2" "2.000001" 300

abbrev pub sync_event : Event
sync_event = event Kind.command Command.sync "E3" "3.000001" 300

abbrev pub untrack_event : Event
untrack_event = event Kind.command Command.untrack "E4" "3.000001" 300

abbrev pub resume_event : Event
resume_event = event Kind.command Command.resume "E5" "4.000001" 400

abbrev pub completion : Completion
completion = record { last_message_ts = "1.000001"; partial_error = []; retry_at = zero_time }

abbrev pub partial_completion : Completion
partial_completion = record {
  last_message_ts = "1.000001";
  partial_error = b'p' ∷ [];
  retry_at = 500;
}

abbrev pub failure : Failure
failure = record { error = b'e' ∷ []; next_attempt = 400; permanent = false }

abbrev pub linked : Thread
linked = linked_thread link_event

abbrev pub running : Thread
running = claimed_thread "k1" 200 (pos 60) linked

abbrev pub lease : Lease
lease = claimed_lease "k1" 200 (pos 60) linked

abbrev pub synced : Thread
synced = completed_thread lease completion 210 running

abbrev pub linked_db : Db
linked_db = (record_event rendering link_event empty_db).1

abbrev pub synced_db : Db
synced_db = (record_event rendering sync_event linked_db).1

abbrev pub untracked_db : Db
untracked_db = (record_event rendering untrack_event linked_db).1
