-- ===== src/Store/System/Invariant/Steps.antt =====
-- Every request keeps the invariant, so it holds in every world that can be reached.
use slackbot_hubspot.Base.{◌≡◌, refl, String, Option, none, some}
use slackbot_hubspot.Domain.{Time, ℤ, Thread}
use slackbot_hubspot.Store.Rendering.{Rendering}
use slackbot_hubspot.Store.Database.{find_thread}
use slackbot_hubspot.Store.Records.Follows.{Consistent}
use slackbot_hubspot.Store.Work.Claims.{claim_cases, first_claimable_sound}
use slackbot_hubspot.Store.Threads.{IsConsistent}
use slackbot_hubspot.Store.System.{
  World, start, Request, records, claims, renews, saves_note, completes, fails, claims_notification,
  queues_reactions, renews_notification, completes_notification, fails_notification, claims_upload,
  completes_upload, fails_upload, renews_upload, issue, perform, Admissible, Reach, here, next,
}
use slackbot_hubspot.Store.System.Changes.{Changes, Changes-threads}
use slackbot_hubspot.Store.System.Frames.{
  threads-claim_notification, threads-queue_thread_reactions, threads-renew_notification,
  threads-complete_notification, threads-fail_notification, threads-claim_upload,
  threads-complete_upload, threads-fail_upload, threads-renew_upload,
}
use slackbot_hubspot.Store.System.Invariant.{Inv, start-Inv, Inv-Changes}
use slackbot_hubspot.Store.System.Invariant.Requests.{record_event-Changes}
use slackbot_hubspot.Store.System.Invariant.Mutations.{
  renew-Changes, save_note-Changes, complete-Changes, fail-Changes,
}
use slackbot_hubspot.Store.System.Invariant.Claims.{claim-Inv}

known-Consistent : (o : Option Thread) → ((t : Thread) → o ≡ some t → IsConsistent t) → Consistent o
known-Consistent none h = tt
known-Consistent (some t) h = h t refl

abbrev pub IsClaim : Request → Type 0
IsClaim (claims token now d) = Unit
IsClaim _ = ⊥

module _ (r : Rendering) where
  -- Every request but a claim only advances and creates threads.
  pub perform-Changes :
      (q : Request) (w : World)
      → Admissible q w
      → ¬ IsClaim q
      → Inv w
      → Changes w.db (perform r q w).db
  unfolding perform
  perform-Changes (records e) w a n i =
      record_event-Changes r e w.db (known-Consistent (find_thread w.db e.key) (i.consistent e.key))
  perform-Changes (claims token now d) w a n i = absurd (n tt)
  perform-Changes (renews l now d) w a n i =
      renew-Changes w.db l now (i.keyed l.thread.key) (i.consistent l.thread.key) d
  perform-Changes (saves_note l note now) w a n i =
      save_note-Changes w.db l now (i.keyed l.thread.key) (i.consistent l.thread.key) note
  perform-Changes (completes token l c now) w a n i =
      complete-Changes w.db l now (i.keyed l.thread.key) (i.consistent l.thread.key) token c
        (λ t e k. i.grants l t a e k)
  perform-Changes (fails token l f now) w a n i =
      fail-Changes w.db l now (i.keyed l.thread.key) (i.consistent l.thread.key) token f
  perform-Changes (claims_notification token now d reactions) w a n i =
      Changes-threads w.db _ (threads-claim_notification token now d reactions w.db)
  perform-Changes (queues_reactions token key) w a n i =
      Changes-threads w.db _ (threads-queue_thread_reactions token key w.db)
  perform-Changes (renews_notification m now d) w a n i =
      Changes-threads w.db _ (threads-renew_notification m now d w.db)
  perform-Changes (completes_notification token m now) w a n i =
      Changes-threads w.db _ (threads-complete_notification token m now w.db)
  perform-Changes (fails_notification token m f now) w a n i =
      Changes-threads w.db _ (threads-fail_notification token m f now w.db)
  perform-Changes (claims_upload token l file now d) w a n i =
      Changes-threads w.db _ (threads-claim_upload token l file now d w.db)
  perform-Changes (completes_upload u id now) w a n i =
      Changes-threads w.db _ (threads-complete_upload u id now w.db)
  perform-Changes (fails_upload u f now) w a n i =
      Changes-threads w.db _ (threads-fail_upload u f now w.db)
  perform-Changes (renews_upload u now d) w a n i =
      Changes-threads w.db _ (threads-renew_upload u now d w.db)

  pub perform-issued :
      (q : Request) (w : World) → ¬ IsClaim q → perform r q w ≡ record w { db = (perform r q w).db }
  unfolding perform
  perform-issued (claims token now d) w n = absurd (n tt)
  perform-issued _ w n = refl

  perform-Inv-claims :
      (token : String) (now : Time) (d : ℤ) (w : World)
      → Admissible (claims token now d) w
      → Inv w
      → Inv (perform r (claims token now d) w)
  unfolding perform
  perform-Inv-claims token now d w a i =
      claim_cases token now d w.db (λ x. Inv (record { db = x.1; issued = issue x.0 w.issued }))
        (λ x. i)
        λ key t f.
          let (e, c) = first_claimable_sound now w.db.threads key t i.ordered f in
          claim-Inv w i token now d key t a.0 a.1 e c

  perform-Inv-other :
      (q : Request) (w : World) → Admissible q w → ¬ IsClaim q → Inv w → Inv (perform r q w)
  perform-Inv-other q w a n i =
      rw (perform-issued q w n) (Inv-Changes w (perform r q w).db i (perform-Changes q w a n i))

  pub perform-Inv : (q : Request) (w : World) → Admissible q w → Inv w → Inv (perform r q w)
  perform-Inv (claims token now d) w a i = perform-Inv-claims token now d w a i
  perform-Inv q w a i = perform-Inv-other q w a (λ h. h) i

  pub Reach-Inv : {w v : World} → Inv w → Reach r w v → Inv v
  Reach-Inv i here = i
  Reach-Inv i (next {u = u} s q a) = perform-Inv q u a (Reach-Inv i s)

  -- Every world that requests lead to keeps the invariant: threads are stored in order under their
  -- keys, are consistent, and carry the token of at most one issued lease, which still grants work.
  pub start-Reach-Inv : {v : World} → Reach r start v → Inv v
  start-Reach-Inv s = Reach-Inv start-Inv s
