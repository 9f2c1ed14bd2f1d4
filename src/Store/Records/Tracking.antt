-- ===== src/Store/Records/Tracking.antt =====
-- internal/store/records.go: how the tracking commands start and stop a thread.
use slackbot_hubspot.Base.{◌≡◌, ◌+◌, refl, true, false, some, arith, String}
use slackbot_hubspot.Domain.{Bytes, Time, ok, Thread, Command, Kind, Event, Lease, Outcome}
use slackbot_hubspot.Backend.Laws.{get-put_self}
use slackbot_hubspot.Store.Keys.{thread_keyed}
use slackbot_hubspot.Store.Timestamps.{newer}
use slackbot_hubspot.Store.Rendering.{Rendering}
use slackbot_hubspot.Store.Database.{Db, find_thread, holds}
use slackbot_hubspot.Store.Records.Decisions.{
  decide, decide_command, decide_tracking, tracking_command, changed_to, untracked_thread,
  resumed_thread,
}
use slackbot_hubspot.Store.Threads.{IsConsistent}
use slackbot_hubspot.Store.Records.Cases.{record_event-decided, threads-apply_decision}
use slackbot_hubspot.Store.Records.{is_complete, is_duplicate, record_event}
use slackbot_hubspot.Base.Bytes.{bytes}
use slackbot_hubspot.Store.Work.{is_claimable, is_eligible}

-- A stopped thread obeys no lease, whatever its token and expiry.
pub not-holds-stopped :
    (t : Thread) (l : Lease) (now : Time) → t.active ≡ false → holds t l now ≡ false
unfolding holds
not-holds-stopped t l now h = ground arith

-- What `untrack` makes of `t`: it is inactive, its revision has gone up, it obeys no lease at any
-- time, it is never claimed, and its ticket, note and generations are those of `t`.
pub record IsStopped (t u : Thread) : Type 0 where
  pub inactive : u.active ≡ false
  pub revision : u.revision ≡ t.revision + 1
  pub obeys_none : (l : Lease) (now : Time) → holds u l now ≡ false
  pub never_claimed : (now : Time) → is_claimable now u ≡ false
  pub same_ticket : u.ticket_id ≡ t.ticket_id
  pub same_note : u.note_id ≡ t.note_id
  pub same_requested : u.requested_generation ≡ t.requested_generation
  pub same_completed : u.completed_generation ≡ t.completed_generation

-- What `resume` makes of `t`: it is active and pending, its revision has gone up, it may be
-- claimed at once, for a generation of its own, and its ticket and note are those of `t`.
pub record IsResumed (t u : Thread) : Type 0 where
  pub active : u.active ≡ true
  pub revision : u.revision ≡ t.revision + 1
  pub claimed_at_once : (now : Time) → is_claimable now u ≡ true
  pub requested : u.requested_generation ≡ t.requested_generation + 1
  pub same_ticket : u.ticket_id ≡ t.ticket_id
  pub same_note : u.note_id ≡ t.note_id

untracked_thread-IsStopped :
    (e : Event) (t : Thread) (ts : String)
    → IsStopped t (untracked_thread e (record t { last_command_ts = ts }))
unfolding untracked_thread is_claimable is_eligible
untracked_thread-IsStopped e t ts = record {
  inactive = refl;
  revision = refl;
  obeys_none = λ l now. not-holds-stopped _ l now refl;
  never_claimed = λ now. refl;
  same_ticket = refl;
  same_note = refl;
  same_requested = refl;
  same_completed = refl;
}

resumed_thread-IsResumed :
    (e : Event) (t : Thread) (ts : String)
    → IsConsistent t
    → IsResumed t (resumed_thread e (record t { last_command_ts = ts }))
unfolding resumed_thread is_claimable is_eligible
resumed_thread-IsResumed e t ts c = record {
  active = refl;
  revision = refl;
  claimed_at_once = λ now. ground (arith, c.ordered);
  requested = refl;
  same_ticket = refl;
  same_note = refl;
}

module _ (r : Rendering) (e : Event) (db : Db) (t : Thread) (complete : is_complete e ≡ true)
    (first : is_duplicate e db ≡ false) (stored : find_thread db e.key ≡ some t)
    (command : e.kind ≡ Kind.command) (new : newer e.message_ts t.last_command_ts ≡ true) where
  written :
      (u : Thread) (reply : Bytes) (o : Outcome)
      → decide r e (some t) ≡ ok (changed_to u reply o)
      → find_thread (record_event r e db).1 e.key ≡ some u
  written u reply o h =
      rw
        (
          record_event-decided r e db (changed_to u reply o) complete first (rw stored h),
          threads-apply_decision e (changed_to u reply o) db,
        )
        (get-put_self db.threads e.key u)

  -- `untrack`, newer than the last command of an active thread, stops it.
  pub untrack_stops :
      e.command ≡ Command.untrack
      → t.active ≡ true
      → (u : Thread) × (find_thread (record_event r e db).1 e.key ≡ some u) × IsStopped t u
  unfolding decide decide_command decide_tracking tracking_command
  untrack_stops c a = (
    untracked_thread e (record t { last_command_ts = e.message_ts }),
    written _ (bytes "Tracking stopped; ticket, note, and file mappings are preserved.")
        Outcome.stopped (ground arith),
    untracked_thread-IsStopped e t e.message_ts,
  )

  -- `resume`, newer than the last command of a stopped thread, starts it again.
  pub resume_starts :
      e.command ≡ Command.resume
      → t.active ≡ false
      → IsConsistent t
      → (u : Thread) × (find_thread (record_event r e db).1 e.key ≡ some u) × IsResumed t u
  unfolding decide decide_command decide_tracking tracking_command
  resume_starts c a v = (
    resumed_thread e (record t { last_command_ts = e.message_ts }),
    written _ (bytes "Tracking resumed; sync queued.") Outcome.resumed (ground arith),
    resumed_thread-IsResumed e t e.message_ts v,
  )
