-- ===== src/Store/System/Changes.antt =====
-- What a request may do to the stored threads, one by one.
use slackbot_hubspot.Base.{◌≡◌, refl, ◌∙◌, Option, none, some, Bool-cases, inl, inr}
use slackbot_hubspot.Domain.{ThreadKey, key_beq, key_beq_iff, Thread}
use slackbot_hubspot.Backend.Laws.{get-put}
use slackbot_hubspot.Backend.Order.{IsOrdered, put-IsOrdered}
use slackbot_hubspot.Store.Keys.{thread_keyed}
use slackbot_hubspot.Store.Database.{Db, find_thread, put_thread}
use slackbot_hubspot.Store.Threads.{IsConsistent, Advances}

-- The thread under one key before and after.
pub data Change (key : ThreadKey) (o p : Option Thread) : Type 0 where
  same : p ≡ o → Change key o p
  created :
      (u : Thread)
      → o ≡ none
      → p ≡ some u
      → u.key ≡ key
      → u.lease_token ≡ ""
      → IsConsistent u
      → Change key o p
  advanced : (t u : Thread) → o ≡ some t → p ≡ some u → Advances t u → Change key o p

-- And the whole table.
pub record Changes (db db' : Db) : Type 0 where
  pub each : (key : ThreadKey) → Change key (find_thread db key) (find_thread db' key)
  pub ordered : IsOrdered db.threads → IsOrdered db'.threads

-- A database with the same threads.
pub Changes-threads : (db db' : Db) → db'.threads ≡ db.threads → Changes db db'
Changes-threads db db' e = record { each = λ key. same (rw e); ordered = λ o. rw e o }

pub Changes-refl : (db : Db) → Changes db db
Changes-refl db = Changes-threads db db refl

-- To replace the thread of one key.
pub Changes-put :
    (db : Db) (i : ThreadKey) (t u : Thread)
    → find_thread db i ≡ some t
    → Advances t u
    → Changes db (put_thread db i u)
Changes-put db i t u e a = record {
  each = λ key. elim (Bool-cases (key_beq i key)) [
    | inl hit ↦
        advanced t u (rw (← (key_beq_iff i key).0 hit) e) (rw (get-put db.threads i key u, hit)) a
    | inr miss ↦ same (rw (get-put db.threads i key u, miss))
  ];
  ordered = put-IsOrdered db.threads i u;
}

pub Changes-create :
    (db : Db) (i : ThreadKey) (u : Thread)
    → find_thread db i ≡ none
    → u.key ≡ i
    → u.lease_token ≡ ""
    → IsConsistent u
    → Changes db (put_thread db i u)
Changes-create db i u e k l c = record {
  each = λ key. elim (Bool-cases (key_beq i key)) [
    | inl hit ↦
        let at = (key_beq_iff i key).0 hit in
        created u (rw (← at) e) (rw (get-put db.threads i key u, hit)) (k ∙ at) l c
    | inr miss ↦ same (rw (get-put db.threads i key u, miss))
  ];
  ordered = put-IsOrdered db.threads i u;
}

-- What follows on a write and leaves the threads alone changes nothing more.
pub Changes-then :
    (db db' db'' : Db) → Changes db db' → db''.threads ≡ db'.threads → Changes db db''
Changes-then db db' db'' c e = record {
  each = λ key. rw e (c.each key);
  ordered = λ o. rw e (c.ordered o);
}
