-- ===== src/Store/System/Invariant.antt =====
-- The invariant of the store and the leases that it has issued.
pub mod Requests
pub mod Mutations
pub mod Claims
pub mod Steps
use slackbot_hubspot.Base.{◌≡◌, sym, subst, ◌∙◌, true, Option, some, is_set}
use mathlib.Core.List.{Memᴰ}
use slackbot_hubspot.Domain.{ThreadKey, Thread, Lease}
use slackbot_hubspot.Backend.{get}
use slackbot_hubspot.Backend.Order.{IsOrdered}
use slackbot_hubspot.Store.Keys.{thread_keyed}
use slackbot_hubspot.Store.Database.{Db, find_thread}
use slackbot_hubspot.Store.Threads.{IsConsistent, Grants, Advances, Grants-Advances}
use slackbot_hubspot.Store.System.{World, start}
use slackbot_hubspot.Store.System.Changes.{Change, same, created, advanced, Changes}

-- The rows are in order, one to a key; every stored thread stands under its key and is consistent; a lease whose token a thread carries
-- still grants its work; issued tokens are not empty, and no two leases share one.
pub record Inv (w : World) : Type 0 where
  pub ordered : IsOrdered w.db.threads
  pub keyed : (key : ThreadKey) (t : Thread) → find_thread w.db key ≡ some t → t.key ≡ key
  pub consistent : (key : ThreadKey) (t : Thread) → find_thread w.db key ≡ some t → IsConsistent t
  pub grants :
      (l : Lease) (t : Thread)
      → Memᴰ l w.issued
      → find_thread w.db l.thread.key ≡ some t
      → t.lease_token ≡ l.token
      → Grants l t
  pub tokens : (l : Lease) → Memᴰ l w.issued → is_set l.token ≡ true
  pub distinct : (l m : Lease) → Memᴰ l w.issued → Memᴰ m w.issued → l.token ≡ m.token → l ≡ m

pub start-Inv : Inv start
unfolding get
start-Inv = record {
  ordered = tt;
  keyed = λ key t e. cc;
  consistent = λ key t e. cc;
  grants = λ l t m. elim m [ ];
  tokens = λ l m. elim m [ ];
  distinct = λ l k m. elim m [ ];
}

pub found_eq : {o : Option Thread} {t u : Thread} → o ≡ some t → o ≡ some u → t ≡ u
found_eq e p = cc

module _ (w : World) (db' : Db) (i : Inv w) (c : Changes w.db db') where
  Changes-keyed : (key : ThreadKey) (t : Thread) → find_thread db' key ≡ some t → t.key ≡ key
  Changes-keyed key t e = go (c.each key)
    where
      go : Change key (find_thread w.db key) (find_thread db' key) → t.key ≡ key
      go (same p) = i.keyed key t (sym p ∙ e)
      go (created u o p k l v) = subst (λ x. x.key ≡ key) (found_eq p e) k
      go (advanced s u o p a) =
          subst (λ x. x.key ≡ key) (found_eq p e) (a.grows.same_key ∙ i.keyed key s o)

  Changes-IsConsistent :
      (key : ThreadKey) (t : Thread) → find_thread db' key ≡ some t → IsConsistent t
  Changes-IsConsistent key t e = go (c.each key)
    where
      go : Change key (find_thread w.db key) (find_thread db' key) → IsConsistent t
      go (same p) = i.consistent key t (sym p ∙ e)
      go (created u o p k l v) = subst IsConsistent (found_eq p e) v
      go (advanced s u o p a) = subst IsConsistent (found_eq p e) a.consistent

  Changes-Grants :
      (l : Lease) (t : Thread)
      → Memᴰ l w.issued
      → find_thread db' l.thread.key ≡ some t
      → t.lease_token ≡ l.token
      → Grants l t
  Changes-Grants l t m e k = go (c.each l.thread.key)
    where
      carries : is_set t.lease_token ≡ true
      carries = rw k (i.tokens l m)

      go :
          Change l.thread.key (find_thread w.db l.thread.key) (find_thread db' l.thread.key)
          → Grants l t
      go (same p) = i.grants l t m (sym p ∙ e) k
      go (created u o p _ none_held v) =
          let eq : u ≡ t = found_eq p e in
          let unset : t.lease_token ≡ "" = subst (λ x. x.lease_token ≡ "") eq none_held in
          absurd (cc (subst (λ x. is_set x ≡ true) unset carries))
      go (advanced s u o p a) =
          let eq : u ≡ t = found_eq p e in
          let b : Advances s t = subst (Advances s) eq a in
          Grants-Advances l b carries (i.grants l s m o (sym (b.same_token carries) ∙ k))

  -- A request that only advances or creates threads keeps the invariant.
  pub Inv-Changes : Inv (record w { db = db' })
  Inv-Changes = record {
    ordered = c.ordered i.ordered;
    keyed = Changes-keyed;
    consistent = Changes-IsConsistent;
    grants = Changes-Grants;
    tokens = i.tokens;
    distinct = i.distinct;
  }
