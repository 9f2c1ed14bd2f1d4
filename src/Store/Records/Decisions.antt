-- ===== src/Store/Records/Decisions.antt =====
-- internal/store/records.go, the switch of `Record`: what an event makes of its thread.
use slackbot_hubspot.Base.{
  ◌+◌, Bool, true, false, not, Option, none, some, List, [], ◌++◌, ◌==◌, if◌then◌else◌,
}
use slackbot_hubspot.Base.Bytes.{bytes}
use slackbot_hubspot.Domain.{
  zero_time, Bytes, is_empty, after, invalid, Result, ok, err, State, Thread, SlackBlock, Command,
  Kind, Event, Outcome,
}
use slackbot_hubspot.Store.Timestamps.{newer}
use slackbot_hubspot.Store.Database.{clear_lease}
use slackbot_hubspot.Store.Rendering.{Rendering}

-- The variables that the switch assigns. `thread` is `none` where `exists` is false.
pub record Decision : Type 0 where
  pub thread : Option Thread
  pub changed : Bool
  pub reply : Bytes
  pub blocks : List SlackBlock
  pub outcome : Outcome

abbrev pub silent : Option Thread → Outcome → Decision
silent thread outcome = record {
  thread = thread;
  changed = false;
  reply = [];
  blocks = [];
  outcome = outcome;
}

abbrev pub answered : Option Thread → Bytes → List SlackBlock → Decision
answered thread reply blocks = record {
  thread = thread;
  changed = false;
  reply = reply;
  blocks = blocks;
  outcome = Outcome.no_outcome;
}

abbrev pub changed_to : Thread → Bytes → Outcome → Decision
changed_to thread reply outcome = record {
  thread = some thread;
  changed = true;
  reply = reply;
  blocks = [];
  outcome = outcome;
}

-- The thread that a link creates.
unfoldable pub linked_thread : Event → Thread
linked_thread e = record {
  attachment_retry_ts = "";
  active = true;
  attempts = 0;
  changed_at = e.now;
  changed_by = e.actor;
  completed_generation = 0;
  current_error = [];
  historical_error = [];
  key = e.key;
  last_command_ts = "";
  last_event_id = e.id;
  last_message_ts = e.message_ts;
  last_success = zero_time;
  last_synced_message_ts = "";
  lease_expires = zero_time;
  lease_token = "";
  next_attempt = zero_time;
  note_id = "";
  partial_error = [];
  requested_generation = 1;
  revision = 1;
  state = State.pending;
  ticket_id = e.ticket_id;
  ticket_url = e.ticket_url;
}

unfoldable pub decide_link : Event → Option Thread → Result Decision
decide_link e none =
    if e.ticket_id == ""
    then err (invalid "linked ticket ID is required")
    else ok (record {
      thread = some (linked_thread e);
      changed = true;
      reply = e.reply;
      blocks = e.reply_blocks;
      outcome = Outcome.linked;
    })
decide_link e (some thread) =
    if not (thread.ticket_id == e.ticket_id)
    then ok (record {
      thread = some thread;
      changed = false;
      reply =
          bytes "This thread is already linked to ticket "
          ++ bytes thread.ticket_id
          ++ bytes "; its ticket cannot be changed.";
      blocks = [];
      outcome = Outcome.conflict;
    })
    else ok (silent (some thread) Outcome.already_linked)

-- A live lease goes on; work without one is pending again.
abbrev pub queued_state : Event → Thread → Thread
queued_state e thread =
    if not (after thread.lease_expires e.now)
    then clear_lease (record thread { state = State.pending })
    else thread

-- What a message makes of an active thread.
unfoldable pub messaged_thread : Event → Thread → Thread
messaged_thread e thread =
    record (queued_state e (record thread {
      current_error = [];
      requested_generation = thread.requested_generation + 1;
      last_event_id = e.id;
      last_message_ts =
          if newer e.message_ts thread.last_message_ts
          then e.message_ts
          else thread.last_message_ts;
    })) { attempts = 0; next_attempt = zero_time }

unfoldable pub decide_message : Event → Option Thread → Decision
decide_message e none = silent none Outcome.no_outcome
decide_message e (some thread) =
    if thread.active
    then changed_to (messaged_thread e thread) [] Outcome.queued
    else silent (some thread) Outcome.no_outcome

-- `sync` on an active thread.
unfoldable pub synced_request : Event → Thread → Thread
synced_request e thread = queued_state e (record thread {
  attachment_retry_ts = e.message_ts;
  requested_generation = thread.requested_generation + 1;
  current_error = [];
  last_event_id = e.id;
  attempts = 0;
  next_attempt = zero_time;
})

-- `untrack` on an active thread.
unfoldable pub untracked_thread : Event → Thread → Thread
untracked_thread e thread = clear_lease (record thread {
  active = false;
  changed_at = e.now;
  changed_by = e.actor;
  current_error = [];
  revision = thread.revision + 1;
  next_attempt = zero_time;
  state = State.stopped;
})

-- `resume` on a stopped thread.
unfoldable pub resumed_thread : Event → Thread → Thread
resumed_thread e thread = clear_lease (record thread {
  active = true;
  attempts = 0;
  changed_at = e.now;
  changed_by = e.actor;
  current_error = [];
  last_event_id = e.id;
  next_attempt = zero_time;
  requested_generation = thread.requested_generation + 1;
  revision = thread.revision + 1;
  state = State.pending;
})

-- The inner switch; `thread` has the command's timestamp already.
unfoldable pub tracking_command : Event → Command → Thread → Decision
tracking_command e Command.sync thread =
    if thread.active
    then changed_to (synced_request e thread) (bytes "Sync queued.") Outcome.queued
    else changed_to thread (bytes "Tracking is stopped. Use @bot resume to resume tracking.")
        Outcome.no_outcome
tracking_command e Command.untrack thread =
    if thread.active
    then changed_to (untracked_thread e thread)
        (bytes "Tracking stopped; ticket, note, and file mappings are preserved.") Outcome.stopped
    else changed_to thread
        (bytes "Tracking is already stopped; ticket, note, and file mappings are preserved.")
        Outcome.no_outcome
tracking_command e Command.resume thread =
    if thread.active
    then changed_to thread (bytes "Tracking is already active.") Outcome.no_outcome
    else changed_to (resumed_thread e thread) (bytes "Tracking resumed; sync queued.")
        Outcome.resumed
tracking_command e _ thread = changed_to thread [] Outcome.no_outcome

abbrev pub is_resume : Command → Bool
is_resume Command.resume = true
is_resume _ = false

unfoldable pub untracked_reply : Command → Bytes
untracked_reply command =
    bytes "This thread is not tracked."
    ++ (if is_resume command
        then bytes
            " Start tracking by mentioning the bot and a HubSpot ticket ID or URL in a new root message."
        else [])

-- A tracking command on a thread that exists: only newer than those applied before.
unfoldable pub decide_tracking : Event → Thread → Decision
decide_tracking e thread =
    if not (newer e.message_ts thread.last_command_ts)
    then record {
      thread = some thread;
      changed = false;
      reply = bytes "Ignored an older or already applied tracking command.";
      blocks = [];
      outcome = Outcome.stale;
    }
    else tracking_command e e.command (record thread { last_command_ts = e.message_ts })

module _ (r : Rendering) where
  -- `help`, and what is no command at all.
  abbrev pub guidance : Event → Option Thread → Decision
  guidance e thread =
      if is_empty e.reply
      then answered thread (r.help "" false).0 (r.help "" false).1
      else answered thread e.reply e.reply_blocks

  unfoldable pub decide_command : Event → Command → Option Thread → Decision
  decide_command e (Command.other name) thread = guidance e thread
  decide_command e command none = answered none (untracked_reply command) []
  decide_command e Command.status (some thread) =
      answered (some thread) (r.status thread e.now).0 (r.status thread e.now).1
  decide_command e _ (some thread) = decide_tracking e thread

  abbrev pub decide_kind : Event → Kind → Option Thread → Result Decision
  decide_kind e Kind.link thread = decide_link e thread
  decide_kind e Kind.message thread = ok (decide_message e thread)
  decide_kind e Kind.command thread = ok (decide_command e e.command thread)
  decide_kind e Kind.reply thread = ok (answered thread e.reply e.reply_blocks)
  decide_kind e (Kind.unsupported name) thread = err (invalid "unsupported event kind")

  unfoldable pub decide : Event → Option Thread → Result Decision
  decide e thread = decide_kind e e.kind thread
