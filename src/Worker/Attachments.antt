-- ===== src/Worker/Attachments.antt =====
-- internal/worker/worker.go, `attachment` and `copyFile`: one file of a message on its way to
-- HubSpot. The answers of Slack, HubSpot and the file system are arguments, and so is what other
-- workers do to the store while the file is copied.
pub mod Copies
pub mod Gates
use slackbot_hubspot.Base.{
  ℕ, ◌+◌, ◌-◌, String, Bool, true, false, not, ◌&&◌, ◌||◌, Option, none, some, List, [], ◌∷◌, ◌++◌,
  ◌==◌, is_set, ltb, nat_beq, if◌then◌else◌,
}
use slackbot_hubspot.Base.Bytes.{bytes}
use slackbot_hubspot.Domain.{
  Time, ℤ, pos, negsuc, Error, no_work, Lease, Upload, UploadState, Failure, after,
}
use slackbot_hubspot.Domain.Remote.{
  File, RemoteError, Fault, remote, stored, canceled, Answer, answered, failed,
}
use slackbot_hubspot.Store.Database.{Db}
use slackbot_hubspot.Store.Uploads.{ClaimAnswer, claim_upload, complete_upload, fail_upload}
use slackbot_hubspot.Worker.Policy.{Options, failure}
use slackbot_hubspot.Worker.Delivery.{Draws, interrupted, is_canceled, is_lease_lost, fault_of}

abbrev pub remote_error : String → String → ℤ → Bool → Fault
remote_error code service retry_after temporary = remote (record {
  code = bytes code;
  retry_after = retry_after;
  service = bytes service;
  temporary = temporary;
})

-- The limits of the options that are read here.
pub record Limits : Type 0 where
  pub allowed_mime_types : List String
  pub max_attachment_bytes : ℕ

-- What `copyFile` meets: the three checks of the thread's lease, the answers of the clients, what
-- `mime.ParseMediaType` answers to a text, the number of bytes that were downloaded, and the faults of the temporary
-- file.
pub record Copying : Type 0 where
  pub first : Option Fault
  pub found : Answer String
  pub info : Answer File
  pub media_type : String → Option String
  pub second : Option Fault
  pub opened : Option Fault
  pub temp : Option Fault
  pub copied : Answer ℕ
  pub rewound : Option Fault
  pub third : Option Fault
  pub uploaded : Answer String

-- What `copyFile` does to the world.
pub data Transfer : Type 0 where
  searches downloads uploads : Transfer

abbrev pub Step : Type 0
Step = List Transfer × Answer String

abbrev pub stop : List Transfer → Fault → Step
stop done e = (done, failed e)

-- Go on unless a call has a fault.
abbrev pub unless : Option Fault → List Transfer → Step → Step
unless (some e) done next = stop done e
unless none done next = next

abbrev pub has_text : String → List String → Bool
has_text s [] = false
has_text s (x ∷ xs) = x == s || has_text s xs

abbrev pub is_allowed : Limits → Option String → Bool
is_allowed l none = false
is_allowed l (some media) = has_text media l.allowed_mime_types

-- `file.Size < 0 || file.Size > w.options.MaxAttachmentBytes`
abbrev pub is_oversized : Limits → ℤ → Bool
is_oversized l (pos n) = ltb l.max_attachment_bytes n
is_oversized l (negsuc n) = true

-- `file.Size > 0 && bytes != file.Size`
abbrev pub is_incomplete : ℤ → ℕ → Bool
is_incomplete (pos n) bytes = ltb 0 n && not (nat_beq bytes n)
is_incomplete (negsuc n) bytes = false

abbrev pub too_big : Fault
too_big = remote_error "attachment_size_limit" "policy" (pos 0) false

module _ (l : Limits) (c : Copying) where
  -- From the seek of the temporary file on.
  abbrev pub send : Step
  send =
      let done = searches ∷ downloads ∷ [] in
      unless c.rewound done (unless c.third done (done ++ uploads ∷ [], c.uploaded))

  -- The bytes that were downloaded, of which `io.LimitReader` lets one too many through.
  abbrev pub check_bytes : ℤ → Answer ℕ → Step
  check_bytes size (failed e) = stop (searches ∷ downloads ∷ []) e
  check_bytes size (answered n) =
      if ltb l.max_attachment_bytes n
      then stop (searches ∷ downloads ∷ []) too_big
      else if is_incomplete size n
      then stop (searches ∷ downloads ∷ [])
          (remote_error "incomplete_download" "slack" (pos 0) true)
      else send

  abbrev pub download : ℤ → Step
  download size = unless c.second (searches ∷ []) (
      unless c.opened (searches ∷ downloads ∷ [])
        (unless c.temp (searches ∷ downloads ∷ []) (check_bytes size c.copied)))

  -- The policy on sizes and types.
  abbrev pub check_file : Answer File → Step
  check_file (failed e) = stop (searches ∷ []) e
  check_file (answered file) =
      if is_oversized l file.size
      then stop (searches ∷ []) too_big
      else if not (is_allowed l (c.media_type file.mime))
      then stop (searches ∷ []) (remote_error "attachment_mime_not_allowed" "policy" (pos 0) false)
      else download file.size

  abbrev pub check_found : Answer String → Step
  check_found (failed e) = stop (searches ∷ []) e
  check_found (answered id) = if is_set id then (searches ∷ [], answered id) else check_file c.info

  -- `copyFile`
  unfoldable pub copy_file : Step
  copy_file = unless c.first [] (check_found c.found)

-- What is drawn and read in `attachment`: the token and the time of the claim, the times at which a
-- refusal is looked at, those of the end, and whether the worker or the service was stopped.
pub record AttachmentDraws : Type 0 where
  pub token : String
  pub claimed_at : Time
  pub looked_at : Time
  pub ended : Draws
  pub over : Bool

-- `time.Until(t)`
abbrev pub until : Time → Time → ℤ
until t now = if after now t then negsuc (now - t - 1) else pos (t - now)

abbrev pub is_failed_upload : UploadState → Bool
is_failed_upload UploadState.failed = true
is_failed_upload _ = false

-- What the worker makes of an upload that it could not claim.
unfoldable pub refusal : Error → Upload → Time → Fault
refusal Error.no_work upload now =
    if is_failed_upload upload.state
    then remote_error "previous_upload_failed" "attachment" (pos 0) false
    else if after upload.next_attempt now
    then remote_error "upload_retry_pending" "attachment" (until upload.next_attempt now) true
    else stored Error.no_work
refusal e upload now = stored e

-- The failure that `attachment` notes. A stopped thread does not use up the file's attempts.
unfoldable pub upload_failure : Options → AttachmentDraws → Fault → ℕ → Failure
upload_failure o x fault attempts =
    if x.over || is_lease_lost fault || is_canceled fault
    then interrupted "upload interrupted" x.ended.noted
    else failure o fault attempts x.ended.jitter x.ended.noted

abbrev pub answer_or : Option Fault → Answer String → Answer String
answer_or none a = a
answer_or (some e) a = failed e

-- A fault of `FailUpload` other than a lost lease hides the copy's fault.
abbrev pub failed_or : Option Fault → Fault → Answer String
failed_or none fault = failed fault
failed_or (some e) fault = if is_lease_lost e then failed fault else failed e

-- The end of a copy that this worker has made, with what it came to.
unfoldable pub finish_copy :
    Options → AttachmentDraws → Upload → Answer String → Db → Answer String × Db
finish_copy o x upload (answered id) db =
    let done = complete_upload upload id x.ended.now db in
    (answer_or (fault_of done.0) (answered id), done.1)
finish_copy o x upload (failed fault) db =
    let done = fail_upload upload (upload_failure o x fault upload.attempts) x.ended.now db in
    (failed_or (fault_of done.0) fault, done.1)

-- `meanwhile` is what other requests make of the store during the copy.
abbrev pub copy_claimed :
    Options → AttachmentDraws → (Db → Db) → Answer String → ClaimAnswer × Db → Answer String × Db
copy_claimed o x meanwhile copied (a, db) = elim a.error [
  | some e ↦ (failed (refusal e a.upload x.looked_at), db)
  | none ↦
      if is_set a.upload.hubspot_id
      then (answered a.upload.hubspot_id, db)
      else finish_copy o x a.upload copied (meanwhile db)
]

-- `attachment`; `copied` is what `copyFile` comes to.
unfoldable pub attachment :
    Options
    → AttachmentDraws
    → (Db → Db)
    → Answer String
    → Lease
    → String
    → ℤ
    → Db
    → Answer String × Db
attachment o x meanwhile copied lease file duration db =
    copy_claimed o x meanwhile copied (claim_upload x.token lease file x.claimed_at duration db)
