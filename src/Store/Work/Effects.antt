-- ===== src/Store/Work/Effects.antt =====
-- The lease mutations of internal/store/work.go, by cases on what the store holds.
use slackbot_hubspot.Base.{◌≡◌, ◌+◌, String, true, false, none, some, arith, ◌==◌, suc, ℕ}
use slackbot_hubspot.Domain.{Time, pos, lease_lost, ok, err, Thread, Lease, Completion, Failure}
use slackbot_hubspot.Store.Database.{Db, find_thread, put_thread, holds, validate, read_leased}
use slackbot_hubspot.Store.Outbox.{queue_reactions}
use slackbot_hubspot.Store.Work.{renew, save_note, completed_thread, complete, failed_thread, fail}

module _ (db : Db) (lease : Lease) (now : Time) where
  pub read_leased-held :
      (t : Thread)
      → find_thread db lease.thread.key ≡ some t
      → holds t lease now ≡ true
      → read_leased db lease now ≡ ok t
  unfolding read_leased
  read_leased-held t e h = rw (e, read_leased) (rw (h, validate))

  pub read_leased-stale :
      (t : Thread)
      → find_thread db lease.thread.key ≡ some t
      → holds t lease now ≡ false
      → read_leased db lease now ≡ err lease_lost
  unfolding read_leased
  read_leased-stale t e h = rw (e, read_leased) (rw (h, validate))

  pub read_leased-missing :
      find_thread db lease.thread.key ≡ none → read_leased db lease now ≡ err lease_lost
  unfolding read_leased
  read_leased-missing e = rw (e, read_leased)

  -- Under a lease that the stored thread holds, each mutation writes the thread that it makes.
  pub held_lease_accepted :
      (token : String) (completion : Completion) (failure : Failure) (t : Thread) (d : ℕ)
      → find_thread db lease.thread.key ≡ some t
      → holds t lease now ≡ true
      → (renew lease now (pos (suc d)) db
          ≡ (ok tt, put_thread db t.key (record t { lease_expires = now + suc d })))
        × (complete token lease completion now db ≡ (
          ok tt,
          queue_reactions token t.key
              (put_thread db t.key (completed_thread lease completion now t)),
        ))
        × (fail token lease failure now db ≡ (
          ok tt,
          queue_reactions token t.key (put_thread db t.key (failed_thread lease failure t)),
        ))
  unfolding renew complete fail completed_thread failed_thread
  held_lease_accepted token completion failure t d e h =
      let held = read_leased-held t e h in (ground arith, ground arith, ground arith)

  -- A lease that the stored thread does not hold changes nothing: each mutation answers
  -- `ErrLeaseLost` and leaves the store as it was.
  pub stale_lease_refused :
      (token note : String) (completion : Completion) (failure : Failure) (t : Thread) (d : ℕ)
      → find_thread db lease.thread.key ≡ some t
      → holds t lease now ≡ false
      → (note == "") ≡ false
      → (renew lease now (pos (suc d)) db ≡ (err lease_lost, db))
        × (save_note lease note now db ≡ (err lease_lost, db))
        × (complete token lease completion now db ≡ (err lease_lost, db))
        × (fail token lease failure now db ≡ (err lease_lost, db))
  unfolding renew save_note complete fail
  stale_lease_refused token note completion failure t d e h n =
      let lost = read_leased-stale t e h in (ground arith, ground arith, ground arith, ground arith)
