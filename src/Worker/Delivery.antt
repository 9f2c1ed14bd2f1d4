-- ===== src/Worker/Delivery.antt =====
-- internal/worker/worker.go, `deliver`, `finishNotification`, and the end of `process`: how a
-- worker gives back what it has claimed. Each reading of the clock and each drawn token is an
-- argument, and so is the answer of Slack to a post.
pub mod Outcomes
pub mod Jobs
use slackbot_hubspot.Base.{
  ℕ, String, Bool, true, false, not, ◌||◌, Option, none, some, if◌then◌else◌,
}
use slackbot_hubspot.Base.Bytes.{bytes}
use slackbot_hubspot.Domain.{
  Time, ℤ, Bytes, is_empty, Error, lease_lost, Result, ok, err, Lease, Completion, Failure,
  Notification,
}
use slackbot_hubspot.Domain.Remote.{Fault, remote, stored, canceled, Answer, answered, failed}
use slackbot_hubspot.Store.Database.{Db}
use slackbot_hubspot.Store.Work.{complete, fail}
use slackbot_hubspot.Store.Notifications.{
  claim_notification, complete_notification, fail_notification,
}
use slackbot_hubspot.Worker.Policy.{Options, failure}

-- What is drawn and read while a claim is finished: the token of a reaction job, the jitter, the
-- time at which the failure is made up, and the time of the store's call.
pub record Draws : Type 0 where
  pub token : String
  pub jitter : ℕ
  pub noted : Time
  pub now : Time

abbrev pub is_canceled : Fault → Bool
is_canceled canceled = true
is_canceled _ = false

abbrev pub is_lease_lost : Fault → Bool
is_lease_lost (stored Error.lease_lost) = true
is_lease_lost _ = false

abbrev pub interrupted : String → Time → Failure
interrupted summary now = record { error = bytes summary; next_attempt = now; permanent = false }

abbrev pub fault_of {ℓ} : {A : Type ℓ} → Result A → Option Fault
fault_of (ok a) = none
fault_of (err e) = some (stored e)

-- The fault of the store's call comes before the fault that it was to note.
abbrev pub first_fault {ℓ} : {A : Type ℓ} → Result A → Fault → Option Fault
first_fault (ok a) fault = some fault
first_fault (err e) fault = some (stored e)

-- The failure that `finishNotification` notes; `over` tells that the context has ended.
unfoldable pub delivery_failure : Options → Bool → Fault → ℕ → Draws → Failure
delivery_failure o over fault attempts x =
    if over || is_canceled fault
    then interrupted "delivery interrupted" x.noted
    else failure o fault attempts x.jitter x.noted

-- `finishNotification`
unfoldable pub finish_notification :
    Options → Bool → Draws → Notification → Option Fault → Db → Option Fault × Db
finish_notification o over x n none db =
    let done = complete_notification x.token n x.now db in (fault_of done.0, done.1)
finish_notification o over x n (some fault) db =
    let done = fail_notification x.token n (delivery_failure o over fault n.attempts x) x.now db in
    (first_fault done.0 fault, done.1)

-- The post of a claimed reply: an empty one is not posted.
abbrev pub posted : (Notification → Option Fault) → Notification → Option Fault
posted post n = if not (is_empty n.text) then post n else none

abbrev pub deliver_claimed :
    Options
    → Bool
    → Draws
    → (Notification → Option Fault)
    → Result Notification × Db
    → Option Fault × Db
deliver_claimed o over x post (err e, db) = (some (stored e), db)
deliver_claimed o over x post (ok n, db) = finish_notification o over x n (posted post n) db

-- `deliver`; `claimed` is the token and `start` the time of the claim.
unfoldable pub deliver :
    Options
    → String
    → Time
    → ℤ
    → Bool
    → Draws
    → (Notification → Option Fault)
    → Db
    → Option Fault × Db
deliver o claimed start duration over x post db =
    deliver_claimed o over x post (claim_notification claimed start duration false db)

-- The failure that `process` notes; `over` tells that the work or the service was cancelled.
unfoldable pub work_failure : Options → Bool → Fault → ℕ → Draws → Failure
work_failure o over fault attempts x =
    if over || is_canceled fault
    then interrupted "operation cancelled" x.noted
    else failure o fault attempts x.jitter x.noted

abbrev pub note_failure : Options → Bool → Draws → Lease → Fault → Db → Db
note_failure o over x lease fault db =
    if is_lease_lost fault
    then db
    else (fail x.token lease (work_failure o over fault lease.thread.attempts x) x.now db).1

abbrev pub completed_or : Options → Bool → Draws → Lease → Result (Unit {0}) × Db → Db
completed_or o over x lease (ok _, db) = db
completed_or o over x lease (err e, db) = note_failure o over x lease (stored e) db

-- The end of `process`, after `reconcile` has answered. `ended` is the time of `Complete`.
unfoldable pub finish_work : Options → Bool → Time → Draws → Lease → Answer Completion → Db → Db
finish_work o over ended x lease (answered completion) db =
    completed_or o over x lease (complete x.token lease completion ended db)
finish_work o over ended x lease (failed fault) db = note_failure o over x lease fault db
