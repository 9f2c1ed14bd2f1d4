-- ===== src/Store/Threads/Requests.antt =====
-- The threads that `Record` writes are consistent, and follow from the threads that it reads.
use slackbot_hubspot.Base.{◌≡◌, String, true, arith, Bool-cases, inl, inr}
use slackbot_hubspot.Domain.{Thread, Event, after}
use slackbot_hubspot.Store.Threads.{IsConsistent, Advances}
use slackbot_hubspot.Store.Records.Decisions.{
  linked_thread, messaged_thread, synced_request, untracked_thread, resumed_thread,
}

pub linked_thread-IsConsistent : (e : Event) → IsConsistent (linked_thread e)
unfolding linked_thread
linked_thread-IsConsistent e = ground arith

module _ (e : Event) (t : Thread) (c : IsConsistent t) where
  pub messaged_thread-Advances : t.active ≡ true → Advances t (messaged_thread e t)
  unfolding messaged_thread
  messaged_thread-Advances a = elim (Bool-cases (after t.lease_expires e.now)) [
    | inl live ↦ rw (live, messaged_thread) (ground arith)
    | inr over ↦ rw (over, messaged_thread) (ground arith)
  ]

  pub synced_request-Advances : t.active ≡ true → Advances t (synced_request e t)
  unfolding synced_request
  synced_request-Advances a = elim (Bool-cases (after t.lease_expires e.now)) [
    | inl live ↦ rw (live, synced_request) (ground arith)
    | inr over ↦ rw (over, synced_request) (ground arith)
  ]

  pub untracked_thread-Advances : Advances t (untracked_thread e t)
  unfolding untracked_thread
  untracked_thread-Advances = ground arith

  pub resumed_thread-Advances : Advances t (resumed_thread e t)
  unfolding resumed_thread
  resumed_thread-Advances = ground arith

  -- The first thing that a tracking command does.
  pub commanded-Advances : (ts : String) → Advances t (record t { last_command_ts = ts })
  commanded-Advances ts = ground arith
