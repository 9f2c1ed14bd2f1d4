-- ===== src/Front/Handler.antt =====
-- internal/httpapi/server.go, `SlackEvent`: the event that a message becomes, and its recording.
-- `Rules` is what the handler asks of internal/render; the answer of HubSpot is an argument.
pub mod Laws
pub mod Replies
use slackbot_hubspot.Base.{
  String, Bool, true, false, not, ◌&&◌, ◌==◌, is_set, Option, none, some, List, [], if◌then◌else◌,
}
use slackbot_hubspot.Base.Bytes.{bytes}
use slackbot_hubspot.Domain.{
  Time, Bytes, SlackBlock, Command, Kind, Event, Thread, RecordResult, Result, ok, err, Error,
  ThreadKey,
}
use slackbot_hubspot.Domain.Remote.{
  Ticket, RemoteError, Message, message_of, Fault, remote, canceled, deadline_exceeded, Answer,
  answered, failed,
}
use slackbot_hubspot.Store.Rendering.{Rendering}
use slackbot_hubspot.Store.Database.{Db, find_thread}
use slackbot_hubspot.Store.Records.{record_event}
use slackbot_hubspot.Front.Events.{
  is_plain, Envelope, Response, Observation, Reply, Stage, stops, goes_on, Options, verify_url,
  Incoming, read_incoming,
}

-- `render.Result`
pub record Parsed : Type 0 where
  pub command : String
  pub invalid : Bool
  pub mentioned : Bool
  pub ticket_id : String

-- `render.Parse` for the configured bot and account, and `Summary.Render`.
pub record Rules : Type 0 where
  pub parse : String → Parsed
  pub summary : Ticket → Bytes

abbrev pub command_of : String → Command
command_of s =
    if s == "sync"
    then Command.sync
    else if s == "untrack"
    then Command.untrack
    else if s == "resume"
    then Command.resume
    else if s == "status"
    then Command.status
    else Command.other s

abbrev pub plain_event : Incoming → Time → Event
plain_event m now = record {
  actor = m.actor;
  command = Command.other "";
  id = m.event_id;
  key = m.key;
  kind = Kind.message;
  message_ts = m.message_ts;
  now = now;
  reply_blocks = [];
  reply = [];
  ticket_id = "";
  ticket_url = "";
}

abbrev pub replied : Event → Bytes × List SlackBlock → Event
replied e (text, blocks) = record e { reply = text; reply_blocks = blocks }

-- A link to a ticket that HubSpot was asked about.
unfoldable pub validated_link : Rules → Event → Answer Ticket → Option Event
validated_link rules e (answered ticket) =
    some (record e { reply = rules.summary ticket; ticket_url = ticket.url })
validated_link rules e (failed (remote x)) =
    if x.temporary
    then none
    else some (record e {
      kind = Kind.reply;
      reply =
          bytes
            "I couldn't validate that ticket. Check the ticket ID and my HubSpot access, then send a new root message.";
    })
validated_link rules e (failed _) = none

-- A link in a root message: HubSpot is asked only for a thread that is not tracked.
unfoldable pub link_event : Rules → Event → Answer Ticket → Option Thread → Option Event
unfolding validated_link
link_event rules e ticket (some thread) = some (record e { ticket_url = thread.ticket_url })
link_event rules e ticket none = validated_link rules e ticket

abbrev pub misplaced : Bytes
misplaced =
    bytes
      "Start tracking by mentioning me with a ticket ID or URL in a new root message. A thread can track only one ticket."

module _ (r : Rendering) (o : Options) (rules : Rules) where
  -- The event to be recorded; `none` where the handler answers that it is unavailable.
  unfoldable pub event_of : Incoming → Answer Ticket → Time → Option Thread → Option Event
  event_of m ticket now thread =
      let parsed = rules.parse m.text in
      let e = plain_event m now in
      if not m.changed && parsed.invalid
      then some (replied (record e { kind = Kind.reply }) (r.help o.bot_user_id true))
      else if not m.changed && is_set parsed.command
      then some (
          if parsed.command == "help"
          then replied (record e { kind = Kind.command; command = command_of parsed.command })
              (r.help o.bot_user_id false)
          else record e { kind = Kind.command; command = command_of parsed.command })
      else if not m.changed && is_set parsed.ticket_id
      then if not (m.key.thread_ts == m.message_ts)
        then some (record e { kind = Kind.reply; reply = misplaced })
        else link_event rules (record e { kind = Kind.link; ticket_id = parsed.ticket_id }) ticket
            thread
      else some e

  abbrev pub unavailable : Reply
  unavailable = record { response = Response.unavailable; observed = none }

  abbrev pub reply_to : Result RecordResult × Db → Reply × Db
  reply_to (err e, db) = (unavailable, db)
  reply_to (ok result, db) = (
    record {
      response = Response.acknowledged none;
      observed = some (if result.duplicate then Observation.duplicate else Observation.accepted);
    },
    db,
  )

  abbrev pub record_or : Option Event → Db → Reply × Db
  record_or none db = (unavailable, db)
  record_or (some e) db = reply_to (record_event r e db)

  abbrev pub handle : Stage Incoming → Answer Ticket → Time → Db → Reply × Db
  handle (stops x) ticket now db = (x, db)
  handle (goes_on m) ticket now db = record_or (event_of m ticket now (find_thread db m.key)) db

  -- `SlackEvent`
  unfoldable pub slack_event : Envelope → Answer Ticket → Time → Db → Reply × Db
  slack_event body ticket now db =
      if body.kind == "url_verification"
      then (verify_url o body, db)
      else handle (read_incoming o body) ticket now db

-- `Ready`: the bot is ready, and the store answers.
unfoldable pub is_ready : Bool → Option Fault → Bool
is_ready ready (some e) = false
is_ready ready none = ready

-- `safeError`: what the log is told of a fault.
unfoldable pub safe_error : Fault → Bytes
safe_error canceled = bytes "request_cancelled"
safe_error deadline_exceeded = bytes "request_deadline_exceeded"
safe_error (remote x) = message_of x
safe_error _ = bytes "operation_failed"

-- `render.Eligible`, over the configured `render.Parse`: the messages of a transcript.
unfoldable pub eligible : Rules → String → Message → Bool
eligible rules bot_user_id message =
    not (message.user_id == bot_user_id)
    && is_plain message.subtype
    && not (is_set (rules.parse message.text).command)
    && not (rules.parse message.text).invalid
