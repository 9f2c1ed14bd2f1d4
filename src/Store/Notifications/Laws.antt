-- ===== src/Store/Notifications/Laws.antt =====
-- internal/store/notifications.go: leases on the outbox, and the order that reaction jobs keep.
use slackbot_hubspot.Base.{
  List, ◌+◌, ◌≤◌, ◌≢◌, ◌⊎◌, refl, ap, sym, subst, ◌≡◌, suc, ℕ, String, Bool, true, false, some, [],
  ◌∷◌, arith, Bool-cases, Option-cases, inl, inr,
}
use mathlib.Core.List.{Memᴰ}
use slackbot_hubspot.Domain.{
  key_beq_iff, State, Time, pos, lease_lost, ok, err, Result-cases, ThreadKey, NotificationId,
  Thread, Notification, Failure,
}
use slackbot_hubspot.Backend.{Table, get, scan}
use slackbot_hubspot.Backend.Laws.{get-put_self, get-put_ne}
use slackbot_hubspot.Store.Keys.{notification_keyed}
use slackbot_hubspot.Store.Database.{
  Db, NotificationRecord, find_thread, put_notification, holds_notification,
}
use slackbot_hubspot.Store.Notifications.{
  validate_notification, is_blocking, is_blocked, is_due, has_core_work, claimed_record, is_ready,
  first_ready, claim_notification, read_notification, renew_notification, complete_notification,
  fail_notification,
}

module _ (db : Db) (claim : Notification) (now : Time) (r : NotificationRecord)
    (stored : get db.notifications claim.id ≡ some r) where
  read_notification-stale :
      holds_notification r claim now ≡ false → read_notification db claim now ≡ err lease_lost
  unfolding read_notification validate_notification
  read_notification-stale h = ground arith

  -- A worker whose lease on an outbox record has run out, or was replaced, or whose record was
  -- completed, changes nothing.
  pub stale_notification_refused :
      (token : String) (f : Failure) (d : ℕ)
      → holds_notification r claim now ≡ false
      → (complete_notification token claim now db ≡ (err lease_lost, db))
        × (fail_notification token claim f now db ≡ (err lease_lost, db))
        × (renew_notification claim now (pos (suc d)) db ≡ (err lease_lost, db))
  unfolding complete_notification fail_notification renew_notification
  stale_notification_refused token f d h =
      let lost = read_notification-stale h in (ground arith, ground arith, ground arith)

-- What the loop settles on is a row of the table, due and ready.
first_ready_sound :
    (now : Time) (reactions : Bool) (db : Db) (m : Table NotificationId NotificationRecord)
    (id : NotificationId) (r : NotificationRecord)
    → first_ready now reactions db m ≡ ok (id, r)
    → Memᴰ (id, r) m × (is_due now reactions r ≡ true) × (is_ready now reactions db r ≡ ok true)
unfolding first_ready
first_ready_sound now reactions db [] id r h = cc
first_ready_sound now reactions db ((i, x) ∷ m) id r h =
    elim (Bool-cases (is_due now reactions x)) [
      | inr later ↦
          let (a, b, c) =
            first_ready_sound now reactions db m id r (rw (later, first_ready) at h) in
          (Memᴰ.tail a, b, c)
      | inl due ↦ elim (Result-cases (is_ready now reactions db x)) [
        | inr (y, q) ↦ absurd (ground arith)
        | inl (b, q) ↦ elim (Bool-cases b) [
          | inl yes_ready ↦
              let e : Path (NotificationId × NotificationRecord) (i, x) (id, r) = ground arith in
              (Memᴰ.head (sym e), ground arith, ground arith)
          | inr not_ready ↦
              let (a, b, c) = first_ready_sound now reactions db m id r (ground arith) in
              (Memᴰ.tail a, b, c)
        ]
      ]
    ]

not-is_blocking :
    (now : Time) (key : ThreadKey) (rs : List NotificationRecord) (x : NotificationRecord)
    → is_blocked now key rs ≡ false
    → Memᴰ x rs
    → x.key ≡ key
    → is_blocking now x ≡ false
unfolding is_blocked
not-is_blocking now key [] x h m e = elim m [ ]
not-is_blocking now key (y ∷ rs) x h (Memᴰ.head p) e =
    rw p (ground (arith, key_beq_iff y.key key, ap (λ z. z.key) p))
not-is_blocking now key (y ∷ rs) x h (Memᴰ.tail m) e =
    not-is_blocking now key rs x (ground arith) m e

-- The record is finished, or a reaction job that nobody holds and whose retry time has come.
pub IsPassed : Time → NotificationRecord → Type 0
IsPassed now x =
    (x.completed ≡ true)
    ⊎ (x.permanent ≡ true)
    ⊎ ((x.reactions ≡ true) × (x.lease_expires ≤ now) × (x.next_attempt ≤ now))

-- No worker is at the thread, and no request for it waits for its first attempt.
pub IsIdle : Time → Thread → Type 0
IsIdle now t =
    (t.active ≡ false)
    ⊎ ((t.state ≢ State.pending) × ((t.state ≢ State.running) ⊎ (t.lease_expires ≤ now)))

not-blocking-IsPassed :
    (now : Time) (x : NotificationRecord) → is_blocking now x ≡ false → IsPassed now x
unfolding is_blocking IsPassed
not-blocking-IsPassed now x h = ground (arith, h)

not-core-IsIdle : (now : Time) (t : Thread) → has_core_work now t ≡ false → IsIdle now t
unfolding has_core_work IsIdle
not-core-IsIdle now t h = ground (arith, h)

-- The thread of a reaction job at rest: each outbox record of the thread lets the job go first,
-- and the thread is stored and idle.
pub record IsQuiet (now : Time) (db : Db) (key : ThreadKey) : Type 0 where
  pub passed :
      (x : NotificationRecord) → Memᴰ x (scan db.notifications) → x.key ≡ key → IsPassed now x
  pub thread : Thread
  pub stored : find_thread db key ≡ some thread
  pub idle : IsIdle now thread

is_ready-IsQuiet :
    (now : Time) (db : Db) (r : NotificationRecord)
    → is_ready now true db r ≡ ok true
    → IsQuiet now db r.key
unfolding is_ready
is_ready-IsQuiet now db r h = elim (Option-cases (find_thread db r.key)) [
  | inl missing ↦ absurd (ground arith)
  | inr (t, e) ↦ record {
    passed = λ x m k.
        not-blocking-IsPassed now x
          (not-is_blocking now r.key (scan db.notifications) x (ground arith) m k);
    thread = t;
    stored = e;
    idle = not-core-IsIdle now t (ground arith);
  }
]

-- A claim that succeeds marks the row that the loop settles on, and hands out what it wrote.
claim_notification-granted :
    (token : String) (now : Time) (d : ℕ) (reactions : Bool) (db : Db) (n : Notification)
    → (claim_notification token now (pos (suc d)) reactions db).0 ≡ ok n
    → (id : NotificationId) × (r : NotificationRecord) × (first_ready now reactions db
          db.notifications
        ≡ ok (id, r))
      × ((claimed_record token now (pos (suc d)) r).notification ≡ n)
      × ((claim_notification token now (pos (suc d)) reactions db).1
          ≡ put_notification db id (claimed_record token now (pos (suc d)) r))
unfolding claim_notification
claim_notification-granted token now d reactions db n h =
    elim (Result-cases (first_ready now reactions db db.notifications)) [
      | inl (f, q) ↦ (f.0, f.1, q, ground arith, ground arith)
      | inr (x, q) ↦ absurd (ground arith)
    ]

-- What a claim has done: it took the row of `id`, which was due, and left it leased to the holder of
-- `token` up to `now + d`, with one more attempt and all else as it was; no other row is changed.
pub record IsTaken (token : String) (now : Time) (d : ℕ) (reactions : Bool)
    (before after : Table NotificationId NotificationRecord) (n : Notification) : Type 0 where
  pub id : NotificationId
  pub old : NotificationRecord
  pub new : NotificationRecord
  pub stored : Memᴰ (id, old) before
  pub of_kind : old.reactions ≡ reactions
  pub unfinished : (old.completed ≡ false) × (old.permanent ≡ false)
  pub waited : (old.next_attempt ≤ now) × (old.lease_expires ≤ now)
  pub left : get after id ≡ some new
  pub handed_out : new.notification ≡ n
  pub leased : (n.lease_token ≡ token) × (n.lease_expires ≡ now + d)
  pub counted : n.attempts ≡ old.attempts + 1
  pub unchanged :
      (n.id ≡ old.id)
      × (n.key ≡ old.key)
      × (n.text ≡ old.text)
      × (n.blocks ≡ old.blocks)
      × (n.reactions ≡ old.reactions)
      × (n.update_tracking ≡ old.update_tracking)
      × (new.completed ≡ old.completed)
      × (new.permanent ≡ old.permanent)
      × (new.next_attempt ≡ old.next_attempt)
  pub others : (other : NotificationId) → id ≢ other → get after other ≡ get before other

is_due-facts :
    (now : Time) (reactions : Bool) (r : NotificationRecord)
    → is_due now reactions r ≡ true
    → (r.reactions ≡ reactions)
      × ((r.completed ≡ false) × (r.permanent ≡ false))
      × ((r.next_attempt ≤ now) × (r.lease_expires ≤ now))
unfolding is_due
is_due-facts now reactions r h = (
  ground (arith, h),
  (ground (arith, h), ground (arith, h)),
  (ground (arith, h), ground (arith, h)),
)

-- An outbox claim hands out a stored record that was due: of the kind asked for, unfinished, not
-- held by anybody, and past its retry time. It leaves that record marked with the new lease, one
-- attempt more and otherwise as it was, and all other records too.
pub claim_notification-IsTaken :
    (token : String) (now : Time) (d : ℕ) (reactions : Bool) (db : Db) (n : Notification)
    → (claim_notification token now (pos (suc d)) reactions db).0 ≡ ok n
    → IsTaken token now
        (suc d)
        reactions
        db.notifications
        (claim_notification token now (pos (suc d)) reactions db).1.notifications
        n
unfolding claimed_record
claim_notification-IsTaken token now d reactions db n h =
    let (id, r, q, e, w) = claim_notification-granted token now d reactions db n h in
    let (m, due, _) = first_ready_sound now reactions db db.notifications id r q in
    let (of_kind, unfinished, waited) = is_due-facts now reactions r due in
    let new = claimed_record token now (pos (suc d)) r in
    record {
      id = id;
      old = r;
      new = new;
      stored = m;
      of_kind = of_kind;
      unfinished = unfinished;
      waited = waited;
      left = rw w (get-put_self db.notifications id new);
      handed_out = e;
      leased = (ap (λ x. x.lease_token) (sym e), ap (λ x. x.lease_expires) (sym e));
      counted = ap (λ x. x.attempts) (sym e);
      unchanged = (
        ap (λ x. x.id) (sym e),
        ap (λ x. x.key) (sym e),
        ap (λ x. x.text) (sym e),
        ap (λ x. x.blocks) (sym e),
        ap (λ x. x.reactions) (sym e),
        ap (λ x. x.update_tracking) (sym e),
        refl,
        refl,
        refl,
      );
      others = λ other differ. rw w (get-put_ne db.notifications id other new differ);
    }

-- A reaction job is handed out only when its thread is quiet: no unfinished reply to the thread is
-- in the outbox, no unfinished reaction job of it is held or waits for its retry, and the thread is
-- stored and, if it is active, is neither pending nor running under a lease that is still alive.
pub reaction_claim-IsQuiet :
    (token : String) (now : Time) (d : ℕ) (db : Db) (n : Notification)
    → (claim_notification token now (pos (suc d)) true db).0 ≡ ok n
    → IsQuiet now db n.key
unfolding claimed_record
reaction_claim-IsQuiet token now d db n h =
    let (id, r, q, e, w) = claim_notification-granted token now d true db n h in
    let (m, due, ready) = first_ready_sound now true db db.notifications id r q in
    subst (IsQuiet now db) (ap (λ x. x.key) e) (is_ready-IsQuiet now db r ready)
