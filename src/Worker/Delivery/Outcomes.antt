-- ===== src/Worker/Delivery/Outcomes.antt =====
-- internal/worker/worker.go: what the store holds when a worker has finished.
use slackbot_hubspot.Base.{◌≡◌, refl, Bool, false, some, [], Bool-cases, inl, inr}
use slackbot_hubspot.Domain.{Time, Thread, Lease, Completion}
use slackbot_hubspot.Domain.Remote.{canceled, Answer, answered, failed}
use slackbot_hubspot.Store.Keys.{thread_keyed}
use slackbot_hubspot.Store.Database.{Db, find_thread, holds}
use slackbot_hubspot.Store.Work.Effects.{stale_lease_refused}
use slackbot_hubspot.Worker.Policy.{Options}
use slackbot_hubspot.Worker.Delivery.{Draws, is_lease_lost, work_failure, finish_work}

module _ (o : Options) (over : Bool) (ended : Time) (x : Draws) (lease : Lease) (db : Db)
    (t : Thread) (stored_at : find_thread db lease.thread.key ≡ some t)
    (own_key : t.key ≡ lease.thread.key) where
  -- A worker that has lost its lease changes nothing any more.
  pub finish_work_stale :
      (answer : Answer Completion)
      → holds t lease ended ≡ false
      → holds t lease x.now ≡ false
      → finish_work o over ended x lease answer db ≡ db
  unfolding finish_work
  finish_work_stale (answered c) h k =
      let f = work_failure o over canceled 0 x in
      let (_, _, e, _) = stale_lease_refused db lease ended x.token "N" c f t 0 stored_at h refl in
      rw e refl
  finish_work_stale (failed fault) h k =
      let f = work_failure o over fault lease.thread.attempts x in
      let c : Completion = record { last_message_ts = ""; partial_error = []; retry_at = 0 } in
      let (_, _, _, e) = stale_lease_refused db lease x.now x.token "N" c f t 0 stored_at k refl in
      elim (Bool-cases (is_lease_lost fault)) [
        | inl lost ↦ rw lost refl
        | inr kept ↦ rw (kept, e) refl
      ]
