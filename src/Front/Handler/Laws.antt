-- ===== src/Front/Handler/Laws.antt =====
-- internal/httpapi/server.go, `SlackEvent`: what reaches the store, and what Slack is told.
use slackbot_hubspot.Base.{◌≡◌, ◌≢◌, true, false, Option, none, some, arith, ◌==◌, is_set}
use slackbot_hubspot.Domain.{Time, Event, Thread, Kind}
use slackbot_hubspot.Domain.Remote.{Ticket, Answer}
use slackbot_hubspot.Store.Rendering.{Rendering}
use slackbot_hubspot.Store.Database.{Db, find_thread}
use slackbot_hubspot.Store.Records.{record_event}
use slackbot_hubspot.Front.Timestamps.{is_slack_timestamp}
use slackbot_hubspot.Front.Events.{Envelope, Reply, Response, Options, Incoming}
use slackbot_hubspot.Front.Handler.Replies.{IsDeclined, IsVerified, IsTold}
use slackbot_hubspot.Front.Handler.{Rules, plain_event, event_of}

-- The message belongs to this workspace, names its event, channel and sender, and both of its
-- timestamps are Slack's.
pub record IsSound (o : Options) (m : Incoming) : Type 0 where
  pub own_workspace : m.key.workspace_id ≡ o.workspace_id
  pub event : is_set m.event_id ≡ true
  pub workspace : is_set m.key.workspace_id ≡ true
  pub channel : is_set m.key.channel_id ≡ true
  pub actor : is_set m.actor ≡ true
  pub message_ts : is_slack_timestamp m.message_ts ≡ true
  pub thread_ts : is_slack_timestamp m.key.thread_ts ≡ true

module _ (r : Rendering) (o : Options) (rules : Rules) where
  -- What the handler did: it answered a challenge; or it declined; or it could not ask HubSpot, and
  -- said that it is unavailable; or it recorded one event, made of a sound message, and told what
  -- the recording came to.
  pub data Handled (body : Envelope) (ticket : Answer Ticket) (now : Time) (db : Db)
      : Reply × Db → Type 0 where
    challenged :
        (x : Reply)
        → body.kind ≡ "url_verification"
        → IsVerified body x
        → Handled body ticket now db (x, db)
    declined : (x : Reply) → IsDeclined x → Handled body ticket now db (x, db)
    unanswered :
        (m : Incoming)
        → IsSound o m
        → event_of r o rules m ticket now (find_thread db m.key) ≡ none
        → Handled body ticket now db
            (record { response = Response.unavailable; observed = none }, db)
    recorded :
        (m : Incoming) (e : Event) (x : Reply)
        → IsSound o m
        → event_of r o rules m ticket now (find_thread db m.key) ≡ some e
        → IsTold (record_event r e db).0 x
        → Handled body ticket now db (x, (record_event r e db).1)

  -- An edit or a deletion is only a message to the store: it never gives a command, links a ticket,
  -- or asks for a reply.
  pub changes_are_messages :
      (m : Incoming) (ticket : Answer Ticket) (now : Time) (thread : Option Thread)
      → m.changed ≡ true
      → event_of r o rules m ticket now thread ≡ some (plain_event m now)
  unfolding event_of
  changes_are_messages m ticket now thread h = ground arith

  -- A ticket mentioned in an answer inside a thread is turned down, whatever HubSpot says.
  pub answers_link_nothing :
      (m : Incoming) (ticket : Answer Ticket) (now : Time) (thread : Option Thread) (e : Event)
      → (m.key.thread_ts == m.message_ts) ≡ false
      → event_of r o rules m ticket now thread ≡ some e
      → e.kind ≢ Kind.link
  unfolding event_of
  answers_link_nothing m ticket now thread e h g = ground arith
