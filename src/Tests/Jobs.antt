-- ===== src/Tests/Jobs.antt =====
-- The outbox and the uploads of the samples.
use slackbot_hubspot.Base.{refl, ◌≡◌, true, [], suc}
use slackbot_hubspot.Domain.{pos, zero_time, ok, NotificationId, Upload, UploadState, key_beq}
use slackbot_hubspot.Backend.{get, put, commit}
use slackbot_hubspot.Store.Keys.{notification_keyed, upload_keyed, thread_keyed}
use slackbot_hubspot.Store.Database.{
  Db, NotificationRecord, empty_db, put_thread, put_notification, put_upload,
}
use slackbot_hubspot.Store.Outbox.{reaction_record}
use slackbot_hubspot.Store.Notifications.{
  is_due, claimed_record, claim_notification, first_ready, is_ready, is_blocked, is_blocking,
  has_core_work,
}
use slackbot_hubspot.Store.Notifications.Laws.{
  IsQuiet, IsTaken, claim_notification-IsTaken, reaction_claim-IsQuiet,
}
use slackbot_hubspot.Store.Work.{completed_thread, claimed_thread, claimed_lease}
use slackbot_hubspot.Store.Records.Decisions.{linked_thread}
use slackbot_hubspot.Tests.Samples.{key, synced}

-- A thread that is synced, with a reaction job.
abbrev job : NotificationRecord
job = reaction_record "r1" key

abbrev job_id : NotificationId
job_id = NotificationId.reaction_job "r1"

abbrev job_db : Db
job_db = put_notification (put_thread empty_db key synced) job_id job

abbrev held_job : NotificationRecord
held_job = claimed_record "n1" 300 (pos (suc 59)) job

abbrev held_db : Db
held_db = put_notification empty_db job_id held_job

job-claimed : (claim_notification "n1" 300 (pos (suc 59)) true job_db).0 ≡ ok held_job.notification
unfolding claim_notification commit first_ready is_due is_ready is_blocked is_blocking has_core_work
    put get reaction_record completed_thread key_beq claimed_thread linked_thread claimed_lease
job-claimed = refl

claim_notification-IsTaken_example :
    IsTaken "n1" 300 60 true job_db.notifications
      (claim_notification "n1" 300 (pos (suc 59)) true job_db).1.notifications
      held_job.notification
claim_notification-IsTaken_example =
    claim_notification-IsTaken "n1" 300 59 true job_db held_job.notification job-claimed

reaction_claim-IsQuiet_example : IsQuiet 300 job_db held_job.notification.key
reaction_claim-IsQuiet_example =
    reaction_claim-IsQuiet "n1" 300 59 job_db held_job.notification job-claimed

abbrev held_upload : Upload
held_upload = record {
  last_retry_ts = "";
  attempts = 1;
  current_error = [];
  file_id = "F1";
  hubspot_id = "";
  lease_expires = 360;
  lease_token = "u1";
  next_attempt = zero_time;
  state = UploadState.running;
  workspace_id = "T1";
}

abbrev upload_db : Db
upload_db = put_upload empty_db (record { workspace = "T1"; file = "F1" }) held_upload
