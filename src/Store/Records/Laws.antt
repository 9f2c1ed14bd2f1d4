-- ===== src/Store/Records/Laws.antt =====
-- internal/store/records.go: what `Record` promises of one event.
use slackbot_hubspot.Base.{
  ◌≡◌, ◌≢◌, refl, true, false, some, arith, Option-cases, ◌⊎◌, inl, inr, if◌then◌else◌,
}
use slackbot_hubspot.Domain.{ok, ThreadKey, Thread, Command, Kind, Event, RecordResult, Outcome}
use slackbot_hubspot.Backend.{get, put}
use slackbot_hubspot.Backend.Laws.{get-put_self, get-put_ne}
use slackbot_hubspot.Store.Keys.{thread_keyed, event_keyed, action_keyed, notification_keyed}
use slackbot_hubspot.Store.Timestamps.{newer}
use slackbot_hubspot.Store.Rendering.{Rendering}
use slackbot_hubspot.Store.Database.{Db, find_thread}
use slackbot_hubspot.Store.Records.Decisions.{Decision, decide, decide_command, decide_tracking}
use slackbot_hubspot.Store.Records.Cases.{
  Recorded, duplicate, decided, record_event-duplicate, record_event-Recorded, record_event_cases,
  threads-apply_decision,
}
use slackbot_hubspot.Store.Records.Follows.{
  Follows, absent, created, kept, advanced, Consistent, decide-Follows,
}
use slackbot_hubspot.Store.Records.{
  is_complete, event_key, action_key, has_action, is_duplicate, write_thread, apply_decision,
  duplicate_result, record_event,
}

module _ (e : Event) (d : Decision) (db : Db) where
  events-apply_decision : (apply_decision e d db).events ≡ put db.events (event_key e) tt
  unfolding apply_decision
  events-apply_decision = ground arith

  actions-apply_decision :
      (apply_decision e d db).actions
      ≡ (if has_action e then put db.actions (action_key e) tt else db.actions)
  unfolding apply_decision
  actions-apply_decision = ground arith

find-write_thread :
    (e : Event) (d : Decision) (db : Db)
    → Follows e (find_thread db e.key) d
    → find_thread (write_thread e d db) e.key ≡ d.thread
find-write_thread e d db (absent o p c) = ground arith
find-write_thread e d db (kept t o p c) = ground arith
find-write_thread e d db (created u o p c k l v) = ground (arith, get-put_self db.threads e.key u)
find-write_thread e d db (advanced t u o p c a) = ground (arith, get-put_self db.threads e.key u)

write_thread-frame :
    (e : Event) (d : Decision) (db : Db) (key : ThreadKey)
    → e.key ≢ key
    → find_thread (write_thread e d db) key ≡ find_thread db key
write_thread-frame e d db key other = elim (Option-cases d.thread) [
  | inl e' ↦ ground arith
  | inr (u, e') ↦ ground (arith, get-put_ne db.threads e.key key u other)
]

is_duplicate_of_event :
    (e : Event) (db : Db) → get db.events (event_key e) ≡ some tt → is_duplicate e db ≡ true
unfolding is_duplicate
is_duplicate_of_event e db h = ground arith

is_duplicate_of_action :
    (e : Event) (db : Db)
    → has_action e ≡ true
    → get db.actions (action_key e) ≡ some tt
    → is_duplicate e db ≡ true
unfolding is_duplicate
is_duplicate_of_action e db a h = ground arith

module _ (r : Rendering) (e : Event) (db : Db) where
  recorded_event : (d : Decision) → get (apply_decision e d db).events (event_key e) ≡ some tt
  recorded_event d = rw (events-apply_decision e d db, get-put_self db.events (event_key e) tt)

  -- Slack's retries are harmless: once `Record` has succeeded for an event, to record the same
  -- event again answers "duplicate" and leaves the store exactly as it was.
  pub record_twice :
      (res : RecordResult)
      → (record_event r e db).0 ≡ ok res
      → record_event r e (record_event r e db).1 ≡ (ok duplicate_result, (record_event r e db).1)
  record_twice res h = go (record_event-Recorded r e db res h)
    where
      go :
          Recorded r e db res
          → record_event r e (record_event r e db).1
            ≡ (ok duplicate_result, (record_event r e db).1)
      go (duplicate c n p q) = rw q q
      go (decided d c n g p q) = rw q (
          record_event-duplicate r e (apply_decision e d db) c
            (is_duplicate_of_event e _ (recorded_event d)))

  -- A command or reply takes effect once for a message, though Slack may report the message by
  -- several events: after it is recorded, any other such event on the same message changes nothing.
  pub message_acts_once :
      (res : RecordResult) (other : Event)
      → (record_event r e db).0 ≡ ok res
      → res.duplicate ≡ false
      → has_action e ≡ true
      → has_action other ≡ true
      → action_key other ≡ action_key e
      → is_complete other ≡ true
      → record_event r other (record_event r e db).1
        ≡ (ok duplicate_result, (record_event r e db).1)
  message_acts_once res other h new a b k c = go (record_event-Recorded r e db res h)
    where
      go :
          Recorded r e db res
          → record_event r other (record_event r e db).1
            ≡ (ok duplicate_result, (record_event r e db).1)
      go (duplicate _ n p q) = cc
      go (decided d _ n g p q) = rw q (
          record_event-duplicate r other (apply_decision e d db) c (
            is_duplicate_of_action other _ b (
              rw (actions-apply_decision e d db, a, k, get-put_self db.actions (action_key e) tt))))

  -- The thread that `Record` returns is the one that it leaves in the store.
  pub record_event-returns_stored :
      (res : RecordResult)
      → Consistent (find_thread db e.key)
      → (record_event r e db).0 ≡ ok res
      → res.duplicate ≡ false
      → find_thread (record_event r e db).1 e.key ≡ res.thread
  record_event-returns_stored res c h new = go (record_event-Recorded r e db res h)
    where
      go : Recorded r e db res → find_thread (record_event r e db).1 e.key ≡ res.thread
      go (duplicate _ n p q) = cc
      go (decided d _ n g p q) =
          rw (q, p, threads-apply_decision e d db)
            (find-write_thread e d db (decide-Follows r e (find_thread db e.key) d c g))

  -- An event touches no thread but its own.
  pub record_event-frame :
      (key : ThreadKey) → e.key ≢ key → find_thread (record_event r e db).1 key ≡ find_thread db key
  record_event-frame key other =
      record_event_cases r e db (λ x. find_thread x key ≡ find_thread db key) refl
        λ d c n g. rw (threads-apply_decision e d db) (write_thread-frame e d db key other)

module _ (r : Rendering) (e : Event) where
  -- A tracking command that is not newer than the last one applied to its thread does nothing to
  -- it: the decision keeps the thread, writes nothing to it, and says so.
  pub stale_command_ignored :
      (t : Thread) (d : Decision)
      → e.kind ≡ Kind.command
      → (e.command ≡ Command.sync) ⊎ (e.command ≡ Command.untrack) ⊎ (e.command ≡ Command.resume)
      → newer e.message_ts t.last_command_ts ≡ false
      → decide r e (some t) ≡ ok d
      → (d.thread ≡ some t) × (d.changed ≡ false) × (d.outcome ≡ Outcome.stale)
  unfolding decide decide_command decide_tracking
  stale_command_ignored t d k c old g = (ground arith, ground arith, ground arith)
