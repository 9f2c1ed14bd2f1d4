-- ===== src/Worker/Attachments/Copies.antt =====
-- internal/worker/worker.go, `attachment`: an ID that it answers is the one in the store.
use slackbot_hubspot.Base.{
  ◌≡◌, ◌≢◌, refl, sym, ap, ◌∙◌, String, true, false, Option, none, some, arith, is_set, ◌==◌,
  if_rule, not, ◌&&◌, ◌||◌, inl, inr,
}
use slackbot_hubspot.Domain.{
  Time, ℤ, after, is_nonpositive, Error, Result, ok, err, Result-cases, Thread, Lease, Upload,
}
use slackbot_hubspot.Domain.Remote.{Fault, Answer, answered, failed}
use slackbot_hubspot.Backend.{get}
use slackbot_hubspot.Backend.Laws.{get-put_self}
use slackbot_hubspot.Store.Keys.{UploadKey, upload_keyed}
use slackbot_hubspot.Store.Database.{Db, put_upload, find_thread, read_leased, validate}
use slackbot_hubspot.Store.Timestamps.{newer}
use slackbot_hubspot.Store.Uploads.{
  is_failed, ClaimAnswer, stored_or_new, claimed_upload, claim_shared, claim_leased, claim_upload,
  upload_key, read_upload, completed_upload, complete_upload, fail_upload,
}
use slackbot_hubspot.Worker.Policy.{Options}
use slackbot_hubspot.Worker.Delivery.{fault_of}
use slackbot_hubspot.Worker.Attachments.{
  AttachmentDraws, refusal, upload_failure, finish_copy, answer_or, failed_or, copy_claimed,
  attachment,
}

-- The uploads stand under their workspace and file.
abbrev pub IsKeyed : Db → Type 0
IsKeyed db = (k : UploadKey) (u : Upload) → get db.uploads k ≡ some u → upload_key u ≡ k

-- What a claim of the file `k` comes to.
data Claimed (k : UploadKey) (db : Db) : ClaimAnswer × Db → Type 0 where
  refused :
      (u : Upload) (e : Error) (db' : Db)
      → Claimed k db (record { upload = u; error = some e }, db')
  already :
      (u : Upload)
      → get db.uploads k ≡ some u
      → is_set u.hubspot_id ≡ true
      → Claimed k db (record { upload = u; error = none }, db)
  leased :
      (u : Upload) (db' : Db)
      → upload_key u ≡ k
      → is_set u.hubspot_id ≡ false
      → Claimed k db (record { upload = u; error = none }, db')

claimed_upload-same :
    (token : String) (now : Time) (d : ℤ) (ts : String) (u : Upload)
    → (upload_key (claimed_upload token now d ts u) ≡ upload_key u)
      × ((claimed_upload token now d ts u).hubspot_id ≡ u.hubspot_id)
unfolding claimed_upload
claimed_upload-same token now d ts u = (ground arith, ground arith)

claim_shared-Claimed :
    (token : String) (now : Time) (d : ℤ) (ts : String) (k : UploadKey) (u : Upload) (db : Db)
    → upload_key u ≡ k
    → (is_set u.hubspot_id ≡ true → get db.uploads k ≡ some u)
    → Claimed k db (claim_shared token now d ts k u db)
unfolding claim_shared
claim_shared-Claimed token now d ts k u db own found =
    let same = claimed_upload-same token now d ts u in
    if_rule (Claimed k db) (is_set u.hubspot_id) _ _ (λ has. already u (found has) has)
      (λ unset.
        if_rule (Claimed k db) (after u.lease_expires now || after u.next_attempt now) _ _
          (λ _. refused u Error.no_work db)
          (λ _.
            if_rule (Claimed k db) (is_failed u.state && not (newer ts u.last_retry_ts)) _ _
              (λ _. refused u Error.no_work db)
              (λ _.
                leased (claimed_upload token now d ts u)
                  (put_upload db k (claimed_upload token now d ts u)) (same.0 ∙ own)
                  (rw same.1 unset))))

stored_or_new-key :
    (workspace file : String) (o : Option Upload)
    → ((u : Upload) → o ≡ some u → upload_key u ≡ record { workspace = workspace; file = file })
    → upload_key (stored_or_new workspace file o) ≡ record { workspace = workspace; file = file }
stored_or_new-key workspace file none h = refl
stored_or_new-key workspace file (some u) h = h u refl

stored_or_new-copied :
    (workspace file : String) (o : Option Upload)
    → is_set (stored_or_new workspace file o).hubspot_id ≡ true
    → o ≡ some (stored_or_new workspace file o)
stored_or_new-copied workspace file none h = cc h
stored_or_new-copied workspace file (some u) h = refl

read_leased-found :
    (db : Db) (l : Lease) (now : Time) (t : Thread)
    → read_leased db l now ≡ ok t
    → find_thread db l.thread.key ≡ some t
unfolding read_leased validate
read_leased-found db l now t h = ground arith

module _ (token : String) (l : Lease) (file : String) (now : Time) (d : ℤ) (db : Db)
    (keyed : IsKeyed db)
    (own_key : (t : Thread) → find_thread db l.thread.key ≡ some t → t.key ≡ l.thread.key) where
  abbrev file_key : UploadKey
  file_key = record { workspace = l.thread.key.workspace_id; file = file }

  claim_leased-Claimed :
      (r : Result Thread)
      → ((t : Thread) → r ≡ ok t → t.key ≡ l.thread.key)
      → Claimed file_key db (claim_leased token now d file db r)
  claim_leased-Claimed (err e) h = refused _ e db
  claim_leased-Claimed (ok t) h =
      let same : t.key.workspace_id ≡ l.thread.key.workspace_id =
        ap (λ x. x.workspace_id) (h t refl) in
      rw same (
        claim_shared-Claimed token now d t.attachment_retry_ts file_key
          (stored_or_new l.thread.key.workspace_id file (get db.uploads file_key)) db
          (stored_or_new-key l.thread.key.workspace_id file (get db.uploads file_key)
            (λ u e. keyed file_key u e))
          (stored_or_new-copied l.thread.key.workspace_id file (get db.uploads file_key)))

  claim_upload-Claimed : Claimed file_key db (claim_upload token l file now d db)
  unfolding claim_upload
  claim_upload-Claimed =
      if_rule (Claimed file_key db) (file == "" || is_nonpositive d) _ _ (λ _. refused _ _ db)
        (λ _.
          claim_leased-Claimed (read_leased db l now)
            (λ t e. own_key t (read_leased-found db l now t e)))

-- The answer of a copy names what the store then holds under the file's key.
abbrev IsRecorded : UploadKey → Answer String × Db → Type 0
IsRecorded k r =
    (id : String)
    → r.0 ≡ answered id
    → (u : Upload) × (get r.1.uploads k ≡ some u) × (u.hubspot_id ≡ id)

failed-IsRecorded : (k : UploadKey) (e : Fault) (db : Db) → IsRecorded k (failed e, db)
failed-IsRecorded k e db id h = ground (arith, h)

complete_upload-stored :
    (c : Upload) (id : String) (now : Time) (db : Db)
    → (complete_upload c id now db).0 ≡ ok tt
    → (u : Upload) × (get (complete_upload c id now db).1.uploads (upload_key c) ≡ some u)
      × (u.hubspot_id ≡ id)
unfolding complete_upload completed_upload
complete_upload-stored c id now db h = elim (Result-cases (read_upload db c now)) [
  | inl (u, q) ↦ (
    completed_upload id u,
    ground (arith, get-put_self db.uploads (upload_key c) (completed_upload id u)),
    refl,
  )
  | inr (e, q) ↦ ground arith
]

answer_or-answered :
    (r : Result (Unit {0})) (id other : String)
    → answer_or (fault_of r) (answered id) ≡ answered other
    → (r ≡ ok tt) × (id ≡ other)
answer_or-answered (ok tt) id other h = (refl, cc h)
answer_or-answered (err e) id other h = ground (arith, h)

failed_or-answered : (o : Option Fault) (e : Fault) (id : String) → failed_or o e ≢ answered id
failed_or-answered none e id h = ground (arith, h)
failed_or-answered (some f) e id h = ground (arith, h)

finish_copy-IsRecorded :
    (k : UploadKey) (o : Options) (x : AttachmentDraws) (c : Upload) (copied : Answer String)
    (db : Db)
    → upload_key c ≡ k
    → IsRecorded k (finish_copy o x c copied db)
unfolding finish_copy
finish_copy-IsRecorded k o x c (answered id) db own other h =
    let done = answer_or-answered (complete_upload c id x.ended.now db).0 id other h in
    let stored = complete_upload-stored c id x.ended.now db done.0 in
    (stored.0, rw (sym own) stored.1, stored.2 ∙ done.1)
finish_copy-IsRecorded k o x c (failed e) db own other h =
    let noted = fail_upload c (upload_failure o x e c.attempts) x.ended.now db in
    ground (arith, failed_or-answered (fault_of noted.0) e other, h)

copy_claimed-IsRecorded :
    (k : UploadKey) (o : Options) (x : AttachmentDraws) (meanwhile : Db → Db)
    (copied : Answer String) (db : Db) (r : ClaimAnswer × Db)
    → Claimed k db r
    → IsRecorded k (copy_claimed o x meanwhile copied r)
copy_claimed-IsRecorded k o x meanwhile copied db _ (refused u e db') =
    failed-IsRecorded k (refusal e u x.looked_at) db'
copy_claimed-IsRecorded k o x meanwhile copied db _ (already u found has) =
    rw has (λ id h. (u, found, cc h))
copy_claimed-IsRecorded k o x meanwhile copied db _ (leased u db' own unset) =
    rw unset (finish_copy-IsRecorded k o x u copied (meanwhile db') own)

-- An ID that `attachment` answers is, whatever other requests did to the store during the copy, the
-- one that the store holds for the file in the lease's workspace, provided that uploads and the
-- thread of the lease stand under their own keys in the store at the start.
pub attachment_recorded :
    (o : Options) (x : AttachmentDraws) (meanwhile : Db → Db) (copied : Answer String) (l : Lease)
    (file : String) (d : ℤ) (db : Db)
    → ((k : UploadKey) (u : Upload) → get db.uploads k ≡ some u → upload_key u ≡ k)
    → ((t : Thread) → find_thread db l.thread.key ≡ some t → t.key ≡ l.thread.key)
    → (id : String) → (attachment o x meanwhile copied l file d db).0 ≡ answered id
    → (u : Upload) × (get
          (attachment o x meanwhile copied l file d db).1.uploads
          (record { workspace = l.thread.key.workspace_id; file = file })
        ≡ some u)
      × (u.hubspot_id ≡ id)
unfolding attachment
attachment_recorded o x meanwhile copied l file d db keyed own =
    copy_claimed-IsRecorded _ o x meanwhile copied db
      (claim_upload x.token l file x.claimed_at d db)
      (claim_upload-Claimed x.token l file x.claimed_at d db keyed own)
