-- ===== src/Store/Database.antt =====
-- internal/store: the records of the five prefixes, and the guards that the operations share
-- (records.go, notifications.go, uploads.go).
use slackbot_hubspot.Base.{
  Bool, not, ◌&&◌, Option, none, some, [], ◌==◌, nat_beq, is_set, if◌then◌else◌,
}
use slackbot_hubspot.Domain.{
  Time, zero_time, after, lease_lost, Result, ok, err, ◌>>=◌, ThreadKey, NotificationId, Thread,
  Lease, Upload, Notification,
}
use slackbot_hubspot.Backend.{Table, get, put}
use slackbot_hubspot.Store.Keys.{
  EventKey, ActionKey, UploadKey, thread_keyed, event_keyed, action_keyed, upload_keyed,
  notification_keyed,
}

-- `notificationRecord`
pub record NotificationRecord : Type 0 where
  pub notification : Notification
  pub open notification use *
  pub completed : Bool
  pub next_attempt : Time
  pub permanent : Bool

-- The record of an event or an action is the text "1".
pub record Db : Type 0 where
  pub actions : Table ActionKey (Unit {0})
  pub events : Table EventKey (Unit {0})
  pub notifications : Table NotificationId NotificationRecord
  pub threads : Table ThreadKey Thread
  pub uploads : Table UploadKey Upload

abbrev pub empty_db : Db
empty_db = record { actions = []; events = []; notifications = []; threads = []; uploads = [] }

abbrev pub find_thread : Db → ThreadKey → Option Thread
find_thread db key = get db.threads key

-- `write(ctx, tx, threadKey(key), thread)`
abbrev pub put_thread : Db → ThreadKey → Thread → Db
put_thread db key thread = record db { threads = put db.threads key thread }

abbrev pub put_notification : Db → NotificationId → NotificationRecord → Db
put_notification db id r = record db { notifications = put db.notifications id r }

abbrev pub put_upload : Db → UploadKey → Upload → Db
put_upload db key upload = record db { uploads = put db.uploads key upload }

-- `clearLease`
abbrev pub clear_lease : Thread → Thread
clear_lease thread = record thread { lease_expires = zero_time; lease_token = "" }

-- The condition of `validate`, for the thread that is stored.
unfoldable pub holds : Thread → Lease → Time → Bool
holds thread lease now =
    thread.active
    && nat_beq thread.revision lease.revision
    && is_set thread.lease_token
    && thread.lease_token == lease.token
    && after thread.lease_expires now

-- `validate`
unfoldable pub validate : Thread → Lease → Time → Result (Unit {0})
validate thread lease now = if holds thread lease now then ok tt else err lease_lost

abbrev pub or_lost {ℓ} : {A : Type ℓ} → Option A → Result A
or_lost none = err lease_lost
or_lost (some a) = ok a

-- What every lease mutation does first: read the thread, and validate the lease against it.
unfoldable pub read_leased : Db → Lease → Time → Result Thread
unfolding validate
read_leased db lease now = do
  thread ← or_lost (find_thread db lease.thread.key)
  _ ← validate thread lease now
  ok thread

-- The condition of `validateNotification`.
unfoldable pub holds_notification : NotificationRecord → Notification → Time → Bool
holds_notification r claim now =
    not r.completed
    && is_set r.lease_token
    && r.lease_token == claim.lease_token
    && after r.lease_expires now

-- The condition of `validateUpload`.
unfoldable pub holds_upload : Upload → Upload → Time → Bool
holds_upload upload claim now =
    is_set upload.lease_token
    && upload.lease_token == claim.lease_token
    && after upload.lease_expires now
