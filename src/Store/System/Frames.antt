-- ===== src/Store/System/Frames.antt =====
-- The operations of the outbox and of the uploads leave the threads alone (internal/store/
-- notifications.go and uploads.go).
use slackbot_hubspot.Base.{◌≡◌, String, Bool, arith}
use slackbot_hubspot.Domain.{Time, ℤ, ThreadKey, Lease, Failure, Upload, Notification}
use slackbot_hubspot.Store.Database.{Db}
use slackbot_hubspot.Store.Outbox.{queue_reactions}
use slackbot_hubspot.Store.Notifications.{
  claim_notification, queue_thread_reactions, renew_notification, complete_notification,
  fail_notification,
}
use slackbot_hubspot.Store.Uploads.{
  claim_upload, complete_upload, fail_upload, renew_upload, claim_shared,
}

pub threads-queue_reactions :
    (token : String) (key : ThreadKey) (db : Db)
    → (queue_reactions token key db).threads ≡ db.threads
unfolding queue_reactions
threads-queue_reactions token key db = ground arith

pub threads-claim_notification :
    (token : String) (now : Time) (d : ℤ) (reactions : Bool) (db : Db)
    → (claim_notification token now d reactions db).1.threads ≡ db.threads
unfolding claim_notification
threads-claim_notification token now d reactions db = ground arith

pub threads-queue_thread_reactions :
    (token : String) (key : ThreadKey) (db : Db)
    → (queue_thread_reactions token key db).1.threads ≡ db.threads
unfolding queue_thread_reactions
threads-queue_thread_reactions token key db = ground (arith, threads-queue_reactions token key db)

pub threads-renew_notification :
    (n : Notification) (now : Time) (d : ℤ) (db : Db)
    → (renew_notification n now d db).1.threads ≡ db.threads
unfolding renew_notification
threads-renew_notification n now d db = ground arith

pub threads-complete_notification :
    (token : String) (n : Notification) (now : Time) (db : Db)
    → (complete_notification token n now db).1.threads ≡ db.threads
unfolding complete_notification
threads-complete_notification token n now db = grind (arith, threads-queue_reactions)

pub threads-fail_notification :
    (token : String) (n : Notification) (f : Failure) (now : Time) (db : Db)
    → (fail_notification token n f now db).1.threads ≡ db.threads
unfolding fail_notification
threads-fail_notification token n f now db = grind (arith, threads-queue_reactions)

pub threads-claim_upload :
    (token : String) (l : Lease) (file : String) (now : Time) (d : ℤ) (db : Db)
    → (claim_upload token l file now d db).1.threads ≡ db.threads
unfolding claim_upload claim_shared
threads-claim_upload token l file now d db = ground arith

pub threads-complete_upload :
    (u : Upload) (id : String) (now : Time) (db : Db)
    → (complete_upload u id now db).1.threads ≡ db.threads
unfolding complete_upload
threads-complete_upload u id now db = ground arith

pub threads-fail_upload :
    (u : Upload) (f : Failure) (now : Time) (db : Db)
    → (fail_upload u f now db).1.threads ≡ db.threads
unfolding fail_upload
threads-fail_upload u f now db = ground arith

pub threads-renew_upload :
    (u : Upload) (now : Time) (d : ℤ) (db : Db) → (renew_upload u now d db).1.threads ≡ db.threads
unfolding renew_upload
threads-renew_upload u now d db = ground arith
