-- ===== src/Store/Uploads.antt =====
-- internal/store/uploads.go: leases on the copies of files, which all threads of a workspace share.
pub mod Laws
pub mod Final
use slackbot_hubspot.Base.{
  ◌+◌, String, Bool, true, false, not, ◌&&◌, ◌||◌, Option, none, some, [], ◌==◌, is_set,
  if◌then◌else◌,
}
use slackbot_hubspot.Domain.{
  Time, zero_time, after, ℤ, is_nonpositive, add_time, Error, lease_lost, no_work, invalid, Result,
  ok, err, ◌>>=◌, Thread, Lease, UploadState, Upload, Failure,
}
use slackbot_hubspot.Backend.{get, commit}
use slackbot_hubspot.Store.Keys.{UploadKey, upload_keyed}
use slackbot_hubspot.Store.Timestamps.{newer}
use slackbot_hubspot.Store.Database.{Db, put_upload, read_leased, or_lost, holds_upload}
use slackbot_hubspot.Store.Summaries.{bounded_error}

-- `validateUpload`
unfoldable pub validate_upload : Upload → Upload → Time → Result (Unit {0})
validate_upload upload claim now = if holds_upload upload claim now then ok tt else err lease_lost

-- Go's zero value.
abbrev pub zero_upload : Upload
zero_upload = record {
  last_retry_ts = "";
  attempts = 0;
  current_error = [];
  file_id = "";
  hubspot_id = "";
  lease_expires = zero_time;
  lease_token = "";
  next_attempt = zero_time;
  state = UploadState.fresh;
  workspace_id = "";
}

abbrev pub stored_or_new : String → String → Option Upload → Upload
stored_or_new workspace file (some upload) = upload
stored_or_new workspace file none = record zero_upload { file_id = file; workspace_id = workspace }

abbrev pub is_failed : UploadState → Bool
is_failed UploadState.failed = true
is_failed _ = false

abbrev pub restarted_upload : Upload → Upload
restarted_upload upload =
    if is_failed upload.state
    then record upload { attempts = 0; current_error = []; next_attempt = zero_time }
    else upload

abbrev pub retried_upload : String → Upload → Upload
retried_upload retry_ts upload =
    let restarted = restarted_upload upload in
    if newer retry_ts upload.last_retry_ts
    then record restarted { last_retry_ts = retry_ts }
    else restarted

-- The upload as a claim leaves it. A failed one starts afresh on a manual retry.
unfoldable pub claimed_upload : String → Time → ℤ → String → Upload → Upload
claimed_upload token now duration retry_ts upload =
    let retried = retried_upload retry_ts upload in
    record retried {
      attempts = retried.attempts + 1;
      lease_expires = add_time now duration;
      lease_token = token;
      state = UploadState.running;
    }

-- What a claim answers: beside `ErrNoWork` the upload that was read comes back, which the worker
-- looks at; beside the other errors the zero value.
pub record ClaimAnswer : Type 0 where
  pub upload : Upload
  pub error : Option Error

-- `ClaimUpload` once the thread's lease is found valid.
unfoldable pub claim_shared :
    String → Time → ℤ → String → UploadKey → Upload → Db → ClaimAnswer × Db
claim_shared token now duration retry_ts key upload db =
    if is_set upload.hubspot_id
    then (record { upload = upload; error = none }, db)
    else if after upload.lease_expires now || after upload.next_attempt now
    then (record { upload = upload; error = some no_work }, db)
    else if is_failed upload.state && not (newer retry_ts upload.last_retry_ts)
    then (record { upload = upload; error = some no_work }, db)
    else (
      record { upload = claimed_upload token now duration retry_ts upload; error = none },
      put_upload db key (claimed_upload token now duration retry_ts upload),
    )

abbrev pub claim_leased : String → Time → ℤ → String → Db → Result Thread → ClaimAnswer × Db
claim_leased token now duration file db (err e) =
    (record { upload = zero_upload; error = some e }, db)
claim_leased token now duration file db (ok thread) =
    let key : UploadKey = record { workspace = thread.key.workspace_id; file = file } in
    claim_shared token now duration thread.attachment_retry_ts key
      (stored_or_new thread.key.workspace_id file (get db.uploads key)) db

unfoldable pub claim_upload : String → Lease → String → Time → ℤ → Db → ClaimAnswer × Db
claim_upload token lease file now duration db =
    if file == "" || is_nonpositive duration
    then (
      record {
        upload = zero_upload;
        error = some (invalid "file ID and positive lease duration are required");
      },
      db,
    )
    else claim_leased token now duration file db (read_leased db lease now)

-- The key under which a claimed upload is stored.
abbrev pub upload_key : Upload → UploadKey
upload_key claim = record { workspace = claim.workspace_id; file = claim.file_id }

-- What every mutation of a claimed upload does first.
unfoldable pub read_upload : Db → Upload → Time → Result Upload
unfolding validate_upload
read_upload db claim now = do
  upload ← or_lost (get db.uploads (upload_key claim))
  _ ← validate_upload upload claim now
  ok upload

unfoldable pub completed_upload : String → Upload → Upload
completed_upload hubspot_id upload = record upload {
  current_error = [];
  hubspot_id = hubspot_id;
  lease_expires = zero_time;
  lease_token = "";
  next_attempt = zero_time;
  state = UploadState.complete;
}

unfoldable pub complete_upload : Upload → String → Time → Db → Result (Unit {0}) × Db
unfolding commit
complete_upload claim hubspot_id now db =
    if hubspot_id == ""
    then (err (invalid "HubSpot file ID is required"), db)
    else commit
        (λ db. do
          upload ← read_upload db claim now
          ok (tt, put_upload db (upload_key claim) (completed_upload hubspot_id upload)))
        db

unfoldable pub failed_upload : Failure → Upload → Upload
failed_upload failure upload = record upload {
  current_error = bounded_error failure.error;
  lease_expires = zero_time;
  lease_token = "";
  next_attempt = if failure.permanent then zero_time else failure.next_attempt;
  state = if failure.permanent then UploadState.failed else UploadState.retrying;
}

unfoldable pub fail_upload : Upload → Failure → Time → Db → Result (Unit {0}) × Db
unfolding commit
fail_upload claim failure now = commit λ db. do
  upload ← read_upload db claim now
  ok (tt, put_upload db (upload_key claim) (failed_upload failure upload))

unfoldable pub renew_upload : Upload → Time → ℤ → Db → Result (Unit {0}) × Db
unfolding commit
renew_upload claim now duration db =
    if is_nonpositive duration
    then (err (invalid "lease duration must be positive"), db)
    else commit
        (λ db. do
          upload ← read_upload db claim now
          ok (
            tt,
            put_upload db (upload_key claim)
                (record upload { lease_expires = add_time now duration }),
          ))
        db
