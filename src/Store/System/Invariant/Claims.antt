-- ===== src/Store/System/Invariant/Claims.antt =====
-- `Claim` keeps the invariant: the token that it draws is new.
use slackbot_hubspot.Base.{
  ◌≡◌, ◌≢◌, refl, ap, sym, subst, ◌∙◌, ◌⊎◌, String, true, some, ◌∷◌, is_set, arith, inl, inr,
}
use mathlib.Core.List.{Memᴰ}
use slackbot_hubspot.Domain.{Time, ℤ, ThreadKey, Thread, Lease, key_beq_iff}
use slackbot_hubspot.Backend.Laws.{get-put}
use slackbot_hubspot.Backend.Order.{put-IsOrdered}
use slackbot_hubspot.Store.Keys.{thread_keyed}
use slackbot_hubspot.Store.Database.{Db, find_thread, put_thread}
use slackbot_hubspot.Store.Work.{is_claimable, claimed_thread, claimed_lease}
use slackbot_hubspot.Store.Threads.{IsConsistent, Grants}
use slackbot_hubspot.Store.Threads.Mutations.{claimed_thread-IsConsistent, claimed_lease-Grants}
use slackbot_hubspot.Store.System.{World}
use slackbot_hubspot.Store.System.Invariant.{Inv}

pub find-put :
    (db : Db) (i j : ThreadKey) (c u : Thread)
    → find_thread (put_thread db i c) j ≡ some u
    → ((i ≡ j) × (c ≡ u)) ⊎ (find_thread db j ≡ some u)
find-put db i j c u e = ground (arith, get-put db.threads i j c, key_beq_iff i j)

find-put_self :
    (db : Db) (i j : ThreadKey) (c u : Thread)
    → find_thread (put_thread db i c) j ≡ some u
    → i ≡ j
    → c ≡ u
find-put_self db i j c u e p = ground (arith, get-put db.threads i j c, key_beq_iff i j)

module _ (w : World) (i : Inv w) (token : String) (now : Time) (d : ℤ) (key : ThreadKey)
    (t : Thread) (set : is_set token ≡ true)
    (unused : (l : Lease) → Memᴰ l w.issued → l.token ≢ token) (e : find_thread w.db key ≡ some t)
    (c : is_claimable now t ≡ true) where
  claimed : Thread
  claimed = claimed_thread token now d t

  lease : Lease
  lease = claimed_lease token now d t

  after_claim : Db
  after_claim = put_thread w.db key claimed

  claimed_token : claimed.lease_token ≡ token
  unfolding claimed claimed_thread
  claimed_token = refl

  claimed_key : claimed.key ≡ key
  unfolding claimed claimed_thread
  claimed_key = i.keyed key t e

  lease_token : lease.token ≡ token
  unfolding lease claimed_lease claimed_thread
  lease_token = refl

  lease_key : lease.thread.key ≡ key
  unfolding lease claimed_lease claimed_thread
  lease_key = i.keyed key t e

  claim-keyed : (j : ThreadKey) (u : Thread) → find_thread after_claim j ≡ some u → u.key ≡ j
  unfolding after_claim
  claim-keyed j u h = elim (find-put w.db key j claimed u h) [
    | inl (p, q) ↦ subst (λ x. x.key ≡ j) q (claimed_key ∙ p)
    | inr old ↦ i.keyed j u old
  ]

  claim-IsConsistent :
      (j : ThreadKey) (u : Thread) → find_thread after_claim j ≡ some u → IsConsistent u
  unfolding after_claim claimed
  claim-IsConsistent j u h = elim (find-put w.db key j claimed u h) [
    | inl (p, q) ↦
        subst IsConsistent q
          (claimed_thread-IsConsistent t (i.consistent key t e) token now d set c)
    | inr old ↦ i.consistent j u old
  ]

  claim-Grants :
      (l : Lease) (u : Thread)
      → Memᴰ l (lease ∷ w.issued)
      → find_thread after_claim l.thread.key ≡ some u
      → u.lease_token ≡ l.token
      → Grants l u
  unfolding after_claim claimed lease
  claim-Grants l u (Memᴰ.head m) h k =
      let at : key ≡ l.thread.key = sym (ap (λ x. x.thread.key) m ∙ lease_key) in
      let q : claimed ≡ u = find-put_self w.db key l.thread.key claimed u h at in
      subst (λ x. Grants x u) (sym m)
        (subst (Grants lease) q (claimed_lease-Grants t (i.consistent key t e) token now d c))
  claim-Grants l u (Memᴰ.tail m) h k = elim (find-put w.db key l.thread.key claimed u h) [
    | inl (p, q) ↦ absurd (unused l m (sym k ∙ (sym (ap (λ x. x.lease_token) q) ∙ claimed_token)))
    | inr old ↦ i.grants l u m old k
  ]

  claim-tokens : (l : Lease) → Memᴰ l (lease ∷ w.issued) → is_set l.token ≡ true
  claim-tokens l (Memᴰ.head m) = rw (m, lease_token) set
  claim-tokens l (Memᴰ.tail m) = i.tokens l m

  claim-distinct :
      (l k : Lease)
      → Memᴰ l (lease ∷ w.issued)
      → Memᴰ k (lease ∷ w.issued)
      → l.token ≡ k.token
      → l ≡ k
  claim-distinct l k (Memᴰ.head m) (Memᴰ.head n) h = m ∙ sym n
  claim-distinct l k (Memᴰ.head m) (Memᴰ.tail n) h =
      absurd (unused k n (sym h ∙ (ap (λ x. x.token) m ∙ lease_token)))
  claim-distinct l k (Memᴰ.tail m) (Memᴰ.head n) h =
      absurd (unused l m (h ∙ (ap (λ x. x.token) n ∙ lease_token)))
  claim-distinct l k (Memᴰ.tail m) (Memᴰ.tail n) h = i.distinct l k m n h

  pub claim-Inv : Inv (record {
    db = put_thread w.db key (claimed_thread token now d t);
    issued = claimed_lease token now d t ∷ w.issued;
  })
  unfolding after_claim claimed lease
  claim-Inv = record {
    ordered = put-IsOrdered w.db.threads key claimed i.ordered;
    keyed = claim-keyed;
    consistent = claim-IsConsistent;
    grants = claim-Grants;
    tokens = claim-tokens;
    distinct = claim-distinct;
  }
