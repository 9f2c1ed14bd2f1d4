-- ===== src/Worker/Copying.antt =====
-- internal/worker/worker.go, `reconcile`: the loop over the files of the messages. What other
-- requests do to the store before and during a copy, and what the copy meets, are arguments.
pub mod Outcomes
use slackbot_hubspot.Base.{
  ℕ, ◌+◌, String, Bool, true, false, not, ◌&&◌, ◌||◌, List, [], ◌∷◌, ◌++◌, ◌==◌, ltb, if◌then◌else◌,
}
use slackbot_hubspot.Base.Bytes.{bytes}
use slackbot_hubspot.Base.Urls.{path_escape}
use slackbot_hubspot.Domain.{Time, zero_time, is_zero_time, after, ℤ, Bytes, Lease}
use slackbot_hubspot.Domain.Remote.{File, Message, Fault, Answer, answered, failed}
use slackbot_hubspot.Store.Database.{Db}
use slackbot_hubspot.Worker.Policy.{Options, retryable, safe_error, retry_at}
use slackbot_hubspot.Worker.Delivery.{is_lease_lost, is_canceled}
use slackbot_hubspot.Worker.Attachments.{Limits, Copying, copy_file, AttachmentDraws, attachment}

-- The options that the worker reads here.
pub record Setup : Type 0 where
  pub account_id : String
  pub attachments : Bool
  pub lease_duration : ℤ
  pub limits : Limits
  pub policy : Options

-- One attempt at a file: what others do to the store before it and during its copy, what it draws,
-- and the jitter and the time of `retryAt`.
pub record Attempt : Type 0 where
  pub before : Db → Db
  pub meanwhile : Db → Db
  pub draws : AttachmentDraws
  pub copying : Copying
  pub jitter : ℕ
  pub failed_at : Time

-- `render.Attachment`
pub record Attachment : Type 0 where
  pub status : Bytes
  pub url : Bytes

-- The variables of the loop. `attachments` is a map, its newest entry first.
pub record Progress : Type 0 where
  pub attachments : List (String × Attachment)
  pub file_ids : List String
  pub partial : ℕ
  pub retry_at : Time

abbrev pub no_progress : Progress
no_progress = record { attachments = []; file_ids = []; partial = 0; retry_at = zero_time }

abbrev pub is_seen : String → List (String × Attachment) → Bool
is_seen id [] = false
is_seen id ((i, a) ∷ as') = i == id || is_seen id as'

abbrev pub skipped : Attachment
skipped = record { status = bytes "copying disabled"; url = [] }

unfoldable pub synced : String → String → Attachment
synced account id = record {
  status = bytes "synced";
  url =
      bytes "https://app.hubspot.com/file-preview/"
      ++ path_escape (bytes account)
      ++ bytes "/file/"
      ++ path_escape (bytes id)
      ++ bytes "/";
}

unfoldable pub unsynced : Fault → Attachment
unsynced fault = record { status = bytes "not synchronized: " ++ safe_error fault; url = [] }

-- The later of the retries, of which zero is none.
abbrev pub later : Time → Time → Time
later set t = if is_zero_time set || after t set then t else set

module _ (s : Setup) (lease : Lease) where
  -- A file that is not copied: the transcript goes on without it, and a retry is asked for while
  -- the attempts last.
  unfoldable pub left_out : String → Attempt → Fault → Progress → Progress
  left_out id x fault p = record {
    attachments = (id, unsynced fault) ∷ p.attachments;
    file_ids = p.file_ids;
    partial = p.partial + 1;
    retry_at =
        if ltb lease.thread.attempts s.policy.max_attempts && retryable fault
        then later p.retry_at (retry_at s.policy fault lease.thread.attempts x.jitter x.failed_at)
        else p.retry_at;
  }

  unfoldable pub came_to : String → Attempt → Progress → Answer String × Db → Answer Progress × Db
  came_to id x p (answered hubspot_id, db) = (
    answered (record p {
      attachments = (id, synced s.account_id hubspot_id) ∷ p.attachments;
      file_ids = p.file_ids ++ hubspot_id ∷ [];
    }),
    db,
  )
  came_to id x p (failed fault, db) =
      if is_lease_lost fault || is_canceled fault
      then (failed fault, db)
      else (answered (left_out id x fault p), db)

  -- One turn of the loop.
  unfoldable pub copy_one : (String → Attempt) → String → Progress → Db → Answer Progress × Db
  copy_one attempts id p db =
      if is_seen id p.attachments
      then (answered p, db)
      else if not s.attachments
      then (answered (record p { attachments = (id, skipped) ∷ p.attachments }), db)
      else let x = attempts id in
        came_to id x p (
          attachment s.policy x.draws x.meanwhile (copy_file s.limits x.copying).1 lease id
            s.lease_duration (x.before db))

  abbrev pub then_copy :
      (Progress → Db → Answer Progress × Db) → Answer Progress × Db → Answer Progress × Db
  then_copy rest (answered p, db) = rest p db
  then_copy rest (failed e, db) = (failed e, db)

  -- The loop, over the files' IDs.
  unfoldable pub copy_files :
      (String → Attempt) → List String → Progress → Db → Answer Progress × Db
  copy_files attempts [] p db = (answered p, db)
  copy_files attempts (id ∷ ids) p db =
      then_copy (copy_files attempts ids) (copy_one attempts id p db)

-- The files of all messages, in the order of the two loops.
abbrev pub ids_of : List File → List String
ids_of [] = []
ids_of (f ∷ fs) = f.id ∷ ids_of fs

abbrev pub file_ids_of : List Message → List String
file_ids_of [] = []
file_ids_of (m ∷ ms) = ids_of m.files ++ file_ids_of ms
