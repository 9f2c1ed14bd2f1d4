-- ===== src/Store/Uploads/Final.antt =====
-- internal/store: no operation touches the record of a file that was copied.
use slackbot_hubspot.Base.{◌≡◌, ◌≢◌, ◌∙◌, refl, String, Bool, some, arith, inl, inr, ap}
use slackbot_hubspot.Domain.{
  Time, ℤ, add_time, ok, Result-cases, Lease, Upload, Failure, Notification, Event, Completion,
  ThreadKey,
}
use slackbot_hubspot.Backend.{get, put}
use slackbot_hubspot.Backend.Laws.{get-put, get-put_ne}
use slackbot_hubspot.Store.Keys.{UploadKey, upload_keyed, upload_beq_iff}
use slackbot_hubspot.Store.Rendering.{Rendering}
use slackbot_hubspot.Store.Database.{Db, read_leased}
use slackbot_hubspot.Store.Outbox.{queue_reactions}
use slackbot_hubspot.Store.Records.{record_event, apply_decision}
use slackbot_hubspot.Store.Records.Decisions.{Decision}
use slackbot_hubspot.Store.Records.Cases.{record_event_cases}
use slackbot_hubspot.Store.Work.{claim, renew, save_note, complete, fail}
use slackbot_hubspot.Store.Work.Claims.{claim_cases}
use slackbot_hubspot.Store.Notifications.{
  claim_notification, queue_thread_reactions, renew_notification, complete_notification,
  fail_notification,
}
use slackbot_hubspot.Store.Uploads.{
  stored_or_new, validate_upload, upload_key, read_upload, claimed_upload, claim_shared,
  claim_upload, completed_upload, complete_upload, failed_upload, fail_upload, renew_upload,
}
use slackbot_hubspot.Store.Uploads.Laws.{IsCopied, IsCopied-not-holds}

uploads-queue_reactions :
    (token : String) (key : ThreadKey) (db : Db)
    → (queue_reactions token key db).uploads ≡ db.uploads
unfolding queue_reactions
uploads-queue_reactions token key db = ground arith

uploads-apply_decision :
    (e : Event) (d : Decision) (db : Db) → (apply_decision e d db).uploads ≡ db.uploads
unfolding apply_decision
uploads-apply_decision e d db = ground arith

pub uploads-record_event :
    (r : Rendering) (e : Event) (db : Db) → (record_event r e db).1.uploads ≡ db.uploads
uploads-record_event r e db =
    record_event_cases r e db (λ x. x.uploads ≡ db.uploads) refl
      (λ d c n g. uploads-apply_decision e d db)

pub uploads-claim :
    (token : String) (now : Time) (d : ℤ) (db : Db) → (claim token now d db).1.uploads ≡ db.uploads
uploads-claim token now d db =
    claim_cases token now d db (λ x. x.1.uploads ≡ db.uploads) (λ x. refl) (λ key t f. refl)

module _ (l : Lease) (now : Time) (db : Db) where
  pub uploads-renew : (d : ℤ) → (renew l now d db).1.uploads ≡ db.uploads
  unfolding renew
  uploads-renew d = ground arith

  pub uploads-save_note : (note : String) → (save_note l note now db).1.uploads ≡ db.uploads
  unfolding save_note
  uploads-save_note note = ground arith

  pub uploads-complete :
      (token : String) (c : Completion) → (complete token l c now db).1.uploads ≡ db.uploads
  unfolding complete
  uploads-complete token c = grind (arith, uploads-queue_reactions)

  pub uploads-fail : (token : String) (f : Failure) → (fail token l f now db).1.uploads ≡ db.uploads
  unfolding fail
  uploads-fail token f = grind (arith, uploads-queue_reactions)

pub uploads-claim_notification :
    (token : String) (now : Time) (d : ℤ) (reactions : Bool) (db : Db)
    → (claim_notification token now d reactions db).1.uploads ≡ db.uploads
unfolding claim_notification
uploads-claim_notification token now d reactions db = ground arith

pub uploads-queue_thread_reactions :
    (token : String) (key : ThreadKey) (db : Db)
    → (queue_thread_reactions token key db).1.uploads ≡ db.uploads
unfolding queue_thread_reactions
uploads-queue_thread_reactions token key db = ground (arith, uploads-queue_reactions token key db)

pub uploads-renew_notification :
    (n : Notification) (now : Time) (d : ℤ) (db : Db)
    → (renew_notification n now d db).1.uploads ≡ db.uploads
unfolding renew_notification
uploads-renew_notification n now d db = ground arith

pub uploads-complete_notification :
    (token : String) (n : Notification) (now : Time) (db : Db)
    → (complete_notification token n now db).1.uploads ≡ db.uploads
unfolding complete_notification
uploads-complete_notification token n now db = grind (arith, uploads-queue_reactions)

pub uploads-fail_notification :
    (token : String) (n : Notification) (f : Failure) (now : Time) (db : Db)
    → (fail_notification token n f now db).1.uploads ≡ db.uploads
unfolding fail_notification
uploads-fail_notification token n f now db = grind (arith, uploads-queue_reactions)

module _ (db : Db) (k : UploadKey) (u : Upload) (stored : get db.uploads k ≡ some u)
    (copied : IsCopied u) where
  claim_shared-final :
      (token : String) (now : Time) (d : ℤ) (ts : String) (i : UploadKey) (x : Upload)
      → (i ≡ k → x ≡ u)
      → get (claim_shared token now d ts i x db).1.uploads k ≡ some u
  unfolding claim_shared
  claim_shared-final token now d ts i x same = ground (
    arith,
    get-put db.uploads i k (claimed_upload token now d ts x),
    upload_beq_iff i k,
    copied.has_id,
  )

  pub claim_upload-final :
      (token : String) (l : Lease) (file : String) (now : Time) (d : ℤ)
      → get (claim_upload token l file now d db).1.uploads k ≡ some u
  unfolding claim_upload
  claim_upload-final token l file now d = elim (Result-cases (read_leased db l now)) [
    | inl (t, q) ↦
        let i : UploadKey = record { workspace = t.key.workspace_id; file = file } in
        let x : Upload = stored_or_new t.key.workspace_id file (get db.uploads i) in
        ground (
          arith,
          claim_shared-final token now d t.attachment_retry_ts i x
              (λ e. ap (stored_or_new t.key.workspace_id file) (ap (get db.uploads) e ∙ stored)),
        )
    | inr (x, q) ↦ ground arith
  ]

  -- A claim under which a mutation succeeds is on another file.
  read_upload-other : (c x : Upload) (now : Time) → read_upload db c now ≡ ok x → upload_key c ≢ k
  unfolding read_upload validate_upload
  read_upload-other c x now h e =
      let at : get db.uploads (upload_key c) ≡ some u = ap (get db.uploads) e ∙ stored in
      ground (arith, IsCopied-not-holds u c now copied)

  write-final :
      (c x v : Upload) (now : Time)
      → read_upload db c now ≡ ok x
      → get (put db.uploads (upload_key c) v) k ≡ some u
  write-final c x v now h =
      get-put_ne db.uploads (upload_key c) k v (read_upload-other c x now h) ∙ stored

  pub complete_upload-final :
      (c : Upload) (id : String) (now : Time)
      → get (complete_upload c id now db).1.uploads k ≡ some u
  unfolding complete_upload
  complete_upload-final c id now = elim (Result-cases (read_upload db c now)) [
    | inl (x, q) ↦ ground (arith, write-final c x (completed_upload id x) now q)
    | inr (x, q) ↦ ground arith
  ]

  pub fail_upload-final :
      (c : Upload) (f : Failure) (now : Time) → get (fail_upload c f now db).1.uploads k ≡ some u
  unfolding fail_upload
  fail_upload-final c f now = elim (Result-cases (read_upload db c now)) [
    | inl (x, q) ↦ ground (arith, write-final c x (failed_upload f x) now q)
    | inr (x, q) ↦ ground arith
  ]

  pub renew_upload-final :
      (c : Upload) (now : Time) (d : ℤ) → get (renew_upload c now d db).1.uploads k ≡ some u
  unfolding renew_upload
  renew_upload-final c now d = elim (Result-cases (read_upload db c now)) [
    | inl (x, q) ↦
        ground (arith, write-final c x (record x { lease_expires = add_time now d }) now q)
    | inr (x, q) ↦ ground arith
  ]
