-- ===== src/Store/Records.antt =====
-- internal/store/records.go: `Get` and `Record`.
pub mod Decisions
pub mod Follows
pub mod Cases
pub mod Confirmations
pub mod Laws
pub mod Tracking
use slackbot_hubspot.Base.{
  String, Bool, true, false, not, ◌&&◌, ◌||◌, Option, none, some, [], ◌==◌, is_set, if◌then◌else◌,
}
use slackbot_hubspot.Domain.{
  zero_time, Bytes, is_empty, not_found, invalid, Result, ok, err, ◌>>=◌, ThreadKey, NotificationId,
  Thread, Command, Kind, Event, Outcome, RecordResult,
}
use slackbot_hubspot.Backend.{get, put, commit}
use slackbot_hubspot.Store.Keys.{
  EventKey, ActionKey, thread_keyed, event_keyed, action_keyed, notification_keyed,
}
use slackbot_hubspot.Store.Database.{
  Db, NotificationRecord, find_thread, put_thread, put_notification,
}
use slackbot_hubspot.Store.Rendering.{Rendering}
use Decisions.{Decision, decide}

-- `Get`
unfoldable pub get_thread : ThreadKey → Db → Result Thread
get_thread key db = elim (find_thread db key) [ none ↦ err not_found | some t ↦ ok t ]

-- The event has an ID and a complete thread key.
unfoldable pub is_complete : Event → Bool
is_complete e =
    is_set e.id && is_set e.key.workspace_id && is_set e.key.channel_id && is_set e.key.thread_ts

abbrev pub event_key : Event → EventKey
event_key e = record { workspace = e.key.workspace_id; event = e.id }

abbrev pub action_key : Event → ActionKey
action_key e = record {
  workspace = e.key.workspace_id;
  channel = e.key.channel_id;
  message = e.message_ts;
}

abbrev pub is_action : Kind → Bool
is_action Kind.command = true
is_action Kind.reply = true
is_action _ = false

-- The message may act once only, whatever event reports it.
unfoldable pub has_action : Event → Bool
has_action e = is_set e.message_ts && is_action e.kind

abbrev pub changes_tracking : Kind → Command → Bool
changes_tracking Kind.command Command.untrack = true
changes_tracking Kind.command Command.resume = true
changes_tracking Kind.command Command.sync = true
changes_tracking _ _ = false

abbrev pub is_linked : Outcome → Bool
is_linked Outcome.linked = true
is_linked _ = false

-- `updateTracking`
unfoldable pub updates_tracking : Event → Decision → Bool
updates_tracking e d = is_linked d.outcome || (d.changed && changes_tracking e.kind e.command)

-- The confirmation that a decision asks for.
unfoldable pub confirmation_record : Event → Decision → NotificationRecord
confirmation_record e d = record {
  notification = record {
    blocks = d.blocks;
    attempts = 0;
    id = NotificationId.confirmation e.key.workspace_id e.id;
    key = e.key;
    lease_expires = zero_time;
    lease_token = "";
    reactions = false;
    text = d.reply;
    update_tracking = updates_tracking e d;
  };
  completed = false;
  next_attempt = zero_time;
  permanent = false;
}

abbrev pub write_thread : Event → Decision → Db → Db
write_thread e d db = elim d.thread [
  | none ↦ db
  | some thread ↦ if d.changed then put_thread db e.key thread else db
]

abbrev pub write_confirmation : Event → Decision → Db → Db
write_confirmation e d db =
    if not (is_empty d.reply) || updates_tracking e d
    then put_notification db (NotificationId.confirmation e.key.workspace_id e.id)
        (confirmation_record e d)
    else db

abbrev pub write_event : Event → Db → Db
write_event e db = record db { events = put db.events (event_key e) tt }

abbrev pub write_action : Event → Db → Db
write_action e db =
    if has_action e then record db { actions = put db.actions (action_key e) tt } else db

-- The writes of a decision, after the action was written.
unfoldable pub apply_decision : Event → Decision → Db → Db
apply_decision e d db =
    write_event e (write_confirmation e d (write_thread e d (write_action e db)))

-- The event, or the message that it reports, was recorded before.
unfoldable pub is_duplicate : Event → Db → Bool
is_duplicate e db = elim (get db.events (event_key e)) [
  | some _ ↦ true
  | none ↦
      if has_action e
      then elim (get db.actions (action_key e)) [ some _ ↦ true | none ↦ false ]
      else false
]

abbrev pub duplicate_result : RecordResult
duplicate_result = record { duplicate = true; outcome = Outcome.no_outcome; thread = none }

abbrev pub decision_result : Decision → RecordResult
decision_result d = record { duplicate = false; outcome = d.outcome; thread = d.thread }

module _ (r : Rendering) where
  unfoldable pub record_event : Event → Db → Result RecordResult × Db
  unfolding commit
  record_event e db =
      if not (is_complete e)
      then (err (invalid "event ID and complete thread key are required"), db)
      else commit
          (λ db.
            if is_duplicate e db
            then ok (duplicate_result, db)
            else (decide r e (find_thread db e.key) >>= λ d.
                ok (decision_result d, apply_decision e d db)))
          db
