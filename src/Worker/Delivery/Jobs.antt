-- ===== src/Worker/Delivery/Jobs.antt =====
-- internal/worker/reactions.go, `deliverReactions`: a reaction job from its claim to its end.
use slackbot_hubspot.Base.{String, Bool, true, Option, some}
use slackbot_hubspot.Domain.{Time, ℤ, Error, Result, ok, err, Notification}
use slackbot_hubspot.Domain.Remote.{Fault, stored}
use slackbot_hubspot.Store.Database.{Db}
use slackbot_hubspot.Store.Notifications.{claim_notification, queue_thread_reactions}
use slackbot_hubspot.Worker.Policy.{Options}
use slackbot_hubspot.Worker.Delivery.{Draws, fault_of, finish_notification}

-- A job whose lease was lost is queued afresh; `again` is the token of the new job.
abbrev pub requeue : String → Notification → Option Fault × Db → Option Fault × Db
requeue again n (some (stored Error.lease_lost), db) =
    let queued = queue_thread_reactions again n.key db in (fault_of queued.0, queued.1)
requeue again n (fault, db) = (fault, db)

module _ (o : Options) (over : Bool) (x : Draws) (again : String)
    (settle : Notification → Option Fault) where
  abbrev pub deliver_job : Result Notification × Db → Option Fault × Db
  deliver_job (err e, db) = (some (stored e), db)
  deliver_job (ok n, db) = requeue again n (finish_notification o over x n (settle n) db)

  -- `deliverReactions`; `settle` is what `reconcileReactions` comes to for the job.
  unfoldable pub deliver_reactions : String → Time → ℤ → Db → Option Fault × Db
  deliver_reactions claimed start duration db =
      deliver_job (claim_notification claimed start duration true db)
