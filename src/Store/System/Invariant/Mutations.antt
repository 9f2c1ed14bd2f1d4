-- ===== src/Store/System/Invariant/Mutations.antt =====
-- The mutations under a lease change the threads only as `Changes` says (internal/store/work.go).
use slackbot_hubspot.Base.{
  ◌≡◌, ◌⊎◌, true, some, arith, Bool-cases, Option-cases, inl, inr, String, is_set, ◌==◌, eq_iff,
}
use slackbot_hubspot.Domain.{
  Time, ℤ, lease_lost, ok, err, is_nonpositive, add_time, Result-cases, Thread, Lease, Completion,
  Failure,
}
use slackbot_hubspot.Store.Database.{Db, find_thread, put_thread, holds, read_leased}
use slackbot_hubspot.Store.Work.{
  renew, set_note, save_note, completed_thread, complete, failed_thread, fail,
}
use slackbot_hubspot.Store.Work.Effects.{read_leased-held, read_leased-stale, read_leased-missing}
use slackbot_hubspot.Store.Threads.{IsConsistent, Grants, Advances}
use slackbot_hubspot.Store.Threads.Mutations.{
  completed_thread-Advances, failed_thread-Advances, renewed-Advances, set_note-Advances,
}
use slackbot_hubspot.Store.System.Changes.{Changes, Changes-refl, Changes-put, Changes-then}
use slackbot_hubspot.Store.System.Frames.{threads-queue_reactions}

holds-active : (t : Thread) (l : Lease) (now : Time) → holds t l now ≡ true → t.active ≡ true
unfolding holds
holds-active t l now h = ground arith

holds-is_set :
    (t : Thread) (l : Lease) (now : Time) → holds t l now ≡ true → is_set t.lease_token ≡ true
unfolding holds
holds-is_set t l now h = ground arith

holds-token : (t : Thread) (l : Lease) (now : Time) → holds t l now ≡ true → t.lease_token ≡ l.token
unfolding holds
holds-token t l now h = ground (arith, eq_iff t.lease_token l.token)

module _ (db : Db) (l : Lease) (now : Time) where
  read_leased_cases :
      (read_leased db l now ≡ err lease_lost)
      ⊎ ((t : Thread) × (find_thread db l.thread.key ≡ some t)
          × (holds t l now ≡ true)
          × (read_leased db l now ≡ ok t))
  read_leased_cases = elim (Option-cases (find_thread db l.thread.key)) [
    | inl none_there ↦ inl (read_leased-missing db l now none_there)
    | inr (t, e) ↦ elim (Bool-cases (holds t l now)) [
      | inl h ↦ inr (t, e, h, read_leased-held db l now t e h)
      | inr h ↦ inl (read_leased-stale db l now t e h)
    ]
  ]

  -- A mutation that writes nothing without a valid lease, and an advance of the thread with one.
  leased-Changes :
      (after_op : Db)
      → ((t : Thread) → find_thread db l.thread.key ≡ some t → t.key ≡ l.thread.key)
      → (read_leased db l now ≡ err lease_lost → after_op ≡ db)
      → ((t : Thread)
          → find_thread db l.thread.key ≡ some t
          → holds t l now ≡ true
          → read_leased db l now ≡ ok t
          → (after_op ≡ db)
            ⊎ ((u : Thread) × Advances t u × (after_op.threads ≡ (put_thread db t.key u).threads)))
      → Changes db after_op
  leased-Changes after_op keyed lost held = elim read_leased_cases [
    | inl e ↦ rw (lost e) (Changes-refl db)
    | inr (t, e, h, o) ↦ elim (held t e h o) [
      | inl q ↦ rw q (Changes-refl db)
      | inr (u, a, q) ↦
          Changes-then db (put_thread db l.thread.key u) after_op
            (Changes-put db l.thread.key t u e a) (rw (← keyed t e) q)
    ]
  ]

  module _ (keyed : (t : Thread) → find_thread db l.thread.key ≡ some t → t.key ≡ l.thread.key)
      (consistent : (t : Thread) → find_thread db l.thread.key ≡ some t → IsConsistent t) where
    pub renew-Changes : (d : ℤ) → Changes db (renew l now d db).1
    unfolding renew
    renew-Changes d =
        leased-Changes (renew l now d db).1 keyed (λ e. ground arith)
          λ t e h o. elim (Bool-cases (is_nonpositive d)) [
            | inl bad ↦ inl (ground arith)
            | inr good ↦ inr (
              record t { lease_expires = add_time now d },
              renewed-Advances t (consistent t e) (add_time now d) (holds-is_set t l now h),
              ground arith,
            )
          ]

    pub save_note-Changes : (note : String) → Changes db (save_note l note now db).1
    unfolding save_note
    save_note-Changes note =
        leased-Changes (save_note l note now db).1 keyed (λ e. ground arith)
          λ t e h o. elim (Result-cases (set_note note t)) [
            | inr (x, q) ↦ inl (ground arith)
            | inl (u, q) ↦ elim (Bool-cases (note == "")) [
              | inl bad ↦ inl (ground arith)
              | inr good ↦
                  let a = set_note-Advances t (consistent t e) note u q in
                  inr (u, a, ground (arith, a.grows.same_key))
            ]
          ]

    pub complete-Changes :
        (token : String) (c : Completion)
        → ((t : Thread)
            → find_thread db l.thread.key ≡ some t
            → t.lease_token ≡ l.token
            → Grants l t)
        → Changes db (complete token l c now db).1
    unfolding complete
    complete-Changes token c grants =
        leased-Changes (complete token l c now db).1 keyed (λ e. ground arith)
          λ t e h o.
            let u = completed_thread l c now t in
            let a =
              completed_thread-Advances t (consistent t e) l c now (holds-active t l now h)
                (grants t e (holds-token t l now h)) in
            inr (
              u,
              a,
              ground (
                arith,
                threads-queue_reactions token u.key (put_thread db u.key u),
                a.grows.same_key,
              ),
            )

    pub fail-Changes : (token : String) (f : Failure) → Changes db (fail token l f now db).1
    unfolding fail
    fail-Changes token f =
        leased-Changes (fail token l f now db).1 keyed (λ e. ground arith)
          λ t e h o.
            let u = failed_thread l f t in
            let a =
              failed_thread-Advances t (consistent t e) l f (holds-active t l now h)
                (holds-is_set t l now h) in
            inr (
              u,
              a,
              ground (
                arith,
                threads-queue_reactions token u.key (put_thread db u.key u),
                a.grows.same_key,
              ),
            )
