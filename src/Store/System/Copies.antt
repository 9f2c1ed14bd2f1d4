-- ===== src/Store/System/Copies.antt =====
-- internal/store/uploads.go: a file is copied to HubSpot once.
use slackbot_hubspot.Base.{◌≡◌, some}
use slackbot_hubspot.Domain.{Upload}
use slackbot_hubspot.Backend.{get}
use slackbot_hubspot.Store.Keys.{UploadKey, upload_keyed}
use slackbot_hubspot.Store.Rendering.{Rendering}
use slackbot_hubspot.Store.Uploads.Laws.{IsCopied}
use slackbot_hubspot.Store.Uploads.Final.{
  uploads-record_event, uploads-claim, uploads-renew, uploads-save_note, uploads-complete,
  uploads-fail, uploads-claim_notification, uploads-queue_thread_reactions,
  uploads-renew_notification, uploads-complete_notification, uploads-fail_notification,
  claim_upload-final, complete_upload-final, fail_upload-final, renew_upload-final,
}
use slackbot_hubspot.Store.System.{
  World, Request, records, claims, renews, saves_note, completes, fails, claims_notification,
  queues_reactions, renews_notification, completes_notification, fails_notification, claims_upload,
  completes_upload, fails_upload, renews_upload, perform, Reach, here, next,
}

module _ (r : Rendering) (k : UploadKey) (u : Upload) (copied : IsCopied u) where
  perform-copied :
      (q : Request) (w : World)
      → get w.db.uploads k ≡ some u
      → get (perform r q w).db.uploads k ≡ some u
  unfolding perform
  perform-copied (records e) w h = rw (uploads-record_event r e w.db) h
  perform-copied (claims token now d) w h = rw (uploads-claim token now d w.db) h
  perform-copied (renews l now d) w h = rw (uploads-renew l now w.db d) h
  perform-copied (saves_note l note now) w h = rw (uploads-save_note l now w.db note) h
  perform-copied (completes token l c now) w h = rw (uploads-complete l now w.db token c) h
  perform-copied (fails token l f now) w h = rw (uploads-fail l now w.db token f) h
  perform-copied (claims_notification token now d reactions) w h =
      rw (uploads-claim_notification token now d reactions w.db) h
  perform-copied (queues_reactions token key) w h =
      rw (uploads-queue_thread_reactions token key w.db) h
  perform-copied (renews_notification n now d) w h = rw (uploads-renew_notification n now d w.db) h
  perform-copied (completes_notification token n now) w h =
      rw (uploads-complete_notification token n now w.db) h
  perform-copied (fails_notification token n f now) w h =
      rw (uploads-fail_notification token n f now w.db) h
  perform-copied (claims_upload token l file now d) w h =
      claim_upload-final w.db k u h copied token l file now d
  perform-copied (completes_upload c id now) w h = complete_upload-final w.db k u h copied c id now
  perform-copied (fails_upload c f now) w h = fail_upload-final w.db k u h copied c f now
  perform-copied (renews_upload c now d) w h = renew_upload-final w.db k u h copied c now d

  -- Once a file has been copied and its lease given back, its record is never touched again,
  -- whatever is requested: no second copy is claimed, and the HubSpot ID stays.
  pub copied_for_good :
      (w v : World) → get w.db.uploads k ≡ some u → Reach r w v → get v.db.uploads k ≡ some u
  copied_for_good w v h here = h
  copied_for_good w v h (next {u = x} s q a) = perform-copied q x (copied_for_good w x h s)
