-- ===== src/Store/System.antt =====
-- The store and its clients: any requests in any order, at any times, by any worker that holds a
-- lease which `Claim` has issued. A request is one transaction of internal/store; the step is the
-- whole transaction, since the backends serialize them.
pub mod Changes
pub mod Frames
pub mod Invariant
pub mod Moves
pub mod Safety
pub mod Leases
pub mod Copies
use slackbot_hubspot.Base.{◌≡◌, ◌≢◌, String, Bool, true, List, [], ◌∷◌, is_set}
use mathlib.Core.List.{Memᴰ}
use slackbot_hubspot.Domain.{
  Time, ℤ, Result, ok, err, ThreadKey, Event, Lease, Completion, Failure, Upload, Notification,
}
use slackbot_hubspot.Store.Rendering.{Rendering}
use slackbot_hubspot.Store.Database.{Db, empty_db}
use slackbot_hubspot.Store.Records.{record_event}
use slackbot_hubspot.Store.Work.{claim, renew, save_note, complete, fail}
use slackbot_hubspot.Store.Notifications.{
  claim_notification, queue_thread_reactions, renew_notification, complete_notification,
  fail_notification,
}
use slackbot_hubspot.Store.Uploads.{claim_upload, complete_upload, fail_upload, renew_upload}

-- `issued` holds every lease that a `Claim` has returned, also those that are over.
pub record World : Type 0 where
  pub db : Db
  pub issued : List Lease

abbrev pub start : World
start = record { db = empty_db; issued = [] }

-- The operations that write, with their arguments; the first text is the token that is drawn.
pub data Request : Type 0 where
  records : Event → Request
  claims : String → Time → ℤ → Request
  renews : Lease → Time → ℤ → Request
  saves_note : Lease → String → Time → Request
  completes : String → Lease → Completion → Time → Request
  fails : String → Lease → Failure → Time → Request
  claims_notification : String → Time → ℤ → Bool → Request
  queues_reactions : String → ThreadKey → Request
  renews_notification : Notification → Time → ℤ → Request
  completes_notification : String → Notification → Time → Request
  fails_notification : String → Notification → Failure → Time → Request
  claims_upload : String → Lease → String → Time → ℤ → Request
  completes_upload : Upload → String → Time → Request
  fails_upload : Upload → Failure → Time → Request
  renews_upload : Upload → Time → ℤ → Request

abbrev pub issue : Result Lease → List Lease → List Lease
issue (ok l) issued = l ∷ issued
issue (err e) issued = issued

module _ (r : Rendering) where
  unfoldable pub perform : Request → World → World
  perform (records e) w = record w { db = (record_event r e w.db).1 }
  perform (claims token now d) w = record {
    db = (claim token now d w.db).1;
    issued = issue (claim token now d w.db).0 w.issued;
  }
  perform (renews l now d) w = record w { db = (renew l now d w.db).1 }
  perform (saves_note l note now) w = record w { db = (save_note l note now w.db).1 }
  perform (completes token l c now) w = record w { db = (complete token l c now w.db).1 }
  perform (fails token l f now) w = record w { db = (fail token l f now w.db).1 }
  perform (claims_notification token now d reactions) w = record w {
    db = (claim_notification token now d reactions w.db).1;
  }
  perform (queues_reactions token key) w = record w {
    db = (queue_thread_reactions token key w.db).1;
  }
  perform (renews_notification n now d) w = record w { db = (renew_notification n now d w.db).1 }
  perform (completes_notification token n now) w = record w {
    db = (complete_notification token n now w.db).1;
  }
  perform (fails_notification token n f now) w = record w {
    db = (fail_notification token n f now w.db).1;
  }
  perform (claims_upload token l file now d) w = record w {
    db = (claim_upload token l file now d w.db).1;
  }
  perform (completes_upload u id now) w = record w { db = (complete_upload u id now w.db).1 }
  perform (fails_upload u f now) w = record w { db = (fail_upload u f now w.db).1 }
  perform (renews_upload u now d) w = record w { db = (renew_upload u now d w.db).1 }

-- What the clients and `rand.Text` keep to: a drawn token is not empty and never drawn before, and
-- a worker names only leases that it was given.
abbrev pub Admissible : Request → World → Type 0
Admissible (claims token now d) w =
    (is_set token ≡ true) × ((l : Lease) → Memᴰ l w.issued → l.token ≢ token)
Admissible (renews l now d) w = Memᴰ l w.issued
Admissible (saves_note l note now) w = Memᴰ l w.issued
Admissible (completes token l c now) w = Memᴰ l w.issued
Admissible (fails token l f now) w = Memᴰ l w.issued
Admissible (claims_upload token l file now d) w = Memᴰ l w.issued
Admissible _ w = Unit

-- The worlds that any sequence of requests leads to.
pub data Reach (r : Rendering) (w : World) : World → Type 0 where
  here : Reach r w w
  next : {u : World} → Reach r w u → (q : Request) → Admissible q u → Reach r w (perform r q u)
