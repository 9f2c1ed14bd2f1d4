-- ===== src/Store/Uploads/Laws.antt =====
-- internal/store/uploads.go: the lease on a file's copy, and what becomes of a finished copy.
use slackbot_hubspot.Base.{◌≡◌, refl, suc, ℕ, String, true, false, some, arith, is_set, ◌==◌}
use slackbot_hubspot.Domain.{Time, pos, lease_lost, err, Upload, Failure}
use slackbot_hubspot.Backend.{get}
use slackbot_hubspot.Store.Keys.{upload_keyed}
use slackbot_hubspot.Store.Database.{Db, holds_upload}
use slackbot_hubspot.Store.Uploads.{
  validate_upload, upload_key, read_upload, completed_upload, complete_upload, fail_upload,
  renew_upload,
}

module _ (db : Db) (claim : Upload) (now : Time) (u : Upload)
    (stored : get db.uploads (upload_key claim) ≡ some u) where
  read_upload-stale : holds_upload u claim now ≡ false → read_upload db claim now ≡ err lease_lost
  unfolding read_upload validate_upload
  read_upload-stale h = ground arith

  -- A worker whose lease on a file has run out, or was replaced, changes nothing.
  pub stale_upload_refused :
      (id : String) (f : Failure) (d : ℕ)
      → holds_upload u claim now ≡ false
      → (id == "") ≡ false
      → (complete_upload claim id now db ≡ (err lease_lost, db))
        × (fail_upload claim f now db ≡ (err lease_lost, db))
        × (renew_upload claim now (pos (suc d)) db ≡ (err lease_lost, db))
  unfolding complete_upload fail_upload renew_upload
  stale_upload_refused id f d h n =
      let lost = read_upload-stale h in (ground arith, ground arith, ground arith)

-- A file that was copied: it has its HubSpot ID, and nobody holds it.
pub record IsCopied (u : Upload) : Type 0 where
  pub has_id : is_set u.hubspot_id ≡ true
  pub unheld : u.lease_token ≡ ""

pub completed_upload-IsCopied :
    (id : String) (u : Upload) → (id == "") ≡ false → IsCopied (completed_upload id u)
unfolding completed_upload
completed_upload-IsCopied id u h = record { has_id = rw h; unheld = refl }

pub IsCopied-not-holds :
    (u claim : Upload) (now : Time) → IsCopied u → holds_upload u claim now ≡ false
unfolding holds_upload
IsCopied-not-holds u claim now c = rw c.unheld
