-- ===== src/Store/Notifications.antt =====
-- internal/store/notifications.go: leases on the outbox. The tokens that `rand.Text` draws are
-- arguments.
pub mod Laws
use slackbot_hubspot.Base.{
  ◌+◌, String, Bool, true, false, not, ◌&&◌, ◌||◌, none, some, List, [], ◌∷◌, if◌then◌else◌,
}
use slackbot_hubspot.Domain.{
  Time, zero_time, after, ℤ, is_nonpositive, add_time, lease_lost, not_found, no_work, invalid,
  Result, ok, err, ◌>>=◌, ThreadKey, key_beq, NotificationId, is_pending, is_running, Thread,
  Notification, Failure,
}
use slackbot_hubspot.Backend.{Table, get, scan, commit}
use slackbot_hubspot.Store.Keys.{thread_keyed, notification_keyed}
use slackbot_hubspot.Store.Database.{
  Db, NotificationRecord, find_thread, put_notification, or_lost, holds_notification,
}
use slackbot_hubspot.Store.Outbox.{queue_reactions}

-- `validateNotification`
unfoldable pub validate_notification : NotificationRecord → Notification → Time → Result (Unit {0})
validate_notification r claim now = if holds_notification r claim now then ok tt else err lease_lost

abbrev pub same_bool : Bool → Bool → Bool
same_bool true b = b
same_bool false b = not b

-- The first loop of `claimNotification`: the record delays the reaction jobs of its thread. It is
-- an unfinished reply, or a reaction job that is held or waits for its next attempt.
unfoldable pub is_blocking : Time → NotificationRecord → Bool
is_blocking now r =
    not r.completed
    && not r.permanent
    && (not r.reactions || after r.lease_expires now || after r.next_attempt now)

-- `blocked[key]`
unfoldable pub is_blocked : Time → ThreadKey → List NotificationRecord → Bool
is_blocked now key [] = false
is_blocked now key (r ∷ rest) = (is_blocking now r && key_beq r.key key) || is_blocked now key rest

-- The negation of the first condition under which the second loop goes on.
unfoldable pub is_due : Time → Bool → NotificationRecord → Bool
is_due now reactions r =
    same_bool r.reactions reactions
    && not r.completed
    && not r.permanent
    && not (after r.next_attempt now)
    && not (after r.lease_expires now)

-- Transcript work of the thread is pending or running.
unfoldable pub has_core_work : Time → Thread → Bool
has_core_work now thread =
    thread.active
    && (is_pending thread.state || (is_running thread.state && after thread.lease_expires now))

unfoldable pub claimed_record : String → Time → ℤ → NotificationRecord → NotificationRecord
claimed_record token now duration r = record r {
  notification = record r.notification {
    attempts = r.attempts + 1;
    lease_expires = add_time now duration;
    lease_token = token;
  };
}

-- What the second loop makes of a due record: `none` goes on to the next.
unfoldable pub is_ready : Time → Bool → Db → NotificationRecord → Result Bool
is_ready now false db r = ok true
is_ready now true db r =
    if is_blocked now r.key (scan db.notifications) then ok false else elim (find_thread db r.key) [
      | none ↦ err not_found
      | some thread ↦ ok (not (has_core_work now thread))
    ]

-- The second loop of `claimNotification`.
unfoldable pub first_ready :
    Time
    → Bool
    → Db
    → Table NotificationId NotificationRecord
    → Result (NotificationId × NotificationRecord)
first_ready now reactions db [] = err no_work
first_ready now reactions db ((id, r) ∷ rest) =
    let others = first_ready now reactions db rest in
    if not (is_due now reactions r)
    then others
    else (is_ready now reactions db r >>= λ ready. if ready then ok (id, r) else others)

unfoldable pub claim_notification : String → Time → ℤ → Bool → Db → Result Notification × Db
unfolding commit
claim_notification token now duration reactions db =
    if is_nonpositive duration
    then (err (invalid "lease duration must be positive"), db)
    else commit
        (λ db. first_ready now reactions db db.notifications >>= λ found.
          let r = claimed_record token now duration found.1 in
          ok (r.notification, put_notification db found.0 r))
        db

-- `QueueReactions`: only for a thread that is stored.
unfoldable pub queue_thread_reactions : String → ThreadKey → Db → Result (Unit {0}) × Db
unfolding commit
queue_thread_reactions token key = commit λ db. elim (find_thread db key) [
  | none ↦ err not_found
  | some thread ↦ ok (tt, queue_reactions token key db)
]

-- What every mutation of a claimed notification does first.
unfoldable pub read_notification : Db → Notification → Time → Result NotificationRecord
unfolding validate_notification
read_notification db claim now = do
  r ← or_lost (get db.notifications claim.id)
  _ ← validate_notification r claim now
  ok r

unfoldable pub renew_notification : Notification → Time → ℤ → Db → Result (Unit {0}) × Db
unfolding commit
renew_notification claim now duration db =
    if is_nonpositive duration
    then (err (invalid "lease duration must be positive"), db)
    else commit
        (λ db. do
          r ← read_notification db claim now
          ok (
            tt,
            put_notification db claim.id (record r {
              notification = record r.notification { lease_expires = add_time now duration };
            }),
          ))
        db

unfoldable pub completed_record : NotificationRecord → NotificationRecord
completed_record r = record r {
  notification = record r.notification { lease_expires = zero_time; lease_token = "" };
  completed = true;
}

unfoldable pub complete_notification : String → Notification → Time → Db → Result (Unit {0}) × Db
unfolding commit
complete_notification token claim now = commit λ db. do
  r ← read_notification db claim now
  let done = put_notification db claim.id (completed_record r)
  ok (tt, if r.update_tracking then queue_reactions token r.key done else done)

unfoldable pub failed_record : Failure → NotificationRecord → NotificationRecord
failed_record failure r = record r {
  notification = record r.notification { lease_expires = zero_time; lease_token = "" };
  next_attempt = failure.next_attempt;
  permanent = failure.permanent;
}

unfoldable pub fail_notification :
    String → Notification → Failure → Time → Db → Result (Unit {0}) × Db
unfolding commit
fail_notification token claim failure now = commit λ db. do
  r ← read_notification db claim now
  let done = put_notification db claim.id (failed_record failure r)
  ok (tt, if failure.permanent && r.update_tracking then queue_reactions token r.key done else done)
