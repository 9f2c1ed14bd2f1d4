-- ===== src/Store/System/Leases.antt =====
-- internal/store/work.go: what `Claim` grants, in the worlds that can be reached.
use slackbot_hubspot.Base.{
  ◌≡◌, ◌+◌, refl, sym, subst, ◌∙◌, String, true, false, some, arith, ltb, is_set, Option-cases, inl,
  inr, suc, ℕ, eq_self, ap,
}
use slackbot_hubspot.Domain.{Time, ℤ, pos, ok, ok-injective, ThreadKey, Thread, Lease}
use slackbot_hubspot.Backend.Laws.{get-put_self}
use slackbot_hubspot.Store.Keys.{thread_keyed}
use slackbot_hubspot.Store.Rendering.{Rendering}
use slackbot_hubspot.Store.Database.{Db, find_thread, put_thread, holds}
use slackbot_hubspot.Store.Work.{
  is_eligible, is_claimable, claimed_thread, claimed_lease, first_claimable, claim,
}
use slackbot_hubspot.Store.Work.Claims.{
  claim_cases, claim-granted, first_claimable_sound, first_claimable_complete,
}
use slackbot_hubspot.Store.System.{World, start, Reach}
use slackbot_hubspot.Store.System.Invariant.Steps.{start-Reach-Inv}

claimed-active : (now : Time) (t : Thread) → is_claimable now t ≡ true → t.active ≡ true
unfolding is_claimable is_eligible
claimed-active now t h = ground arith

claimable_unheld :
    (now : Time) (t : Thread) (m : Lease) → is_claimable now t ≡ true → holds t m now ≡ false
unfolding is_claimable holds
claimable_unheld now t m h = ground arith

claimed_holds :
    (token : String) (now later : Time) (d : ℕ) (t : Thread)
    → is_set token ≡ true
    → is_claimable now t ≡ true
    → holds (claimed_thread token now (pos d) t) (claimed_lease token now (pos d) t) later
      ≡ ltb later (now + d)
unfolding holds claimed_thread claimed_lease is_claimable is_eligible
claimed_holds token now later d t s h = ground (arith, eq_self token)

-- What a granted lease means: the thread under it was stored and obeyed no lease at that time, and
-- now obeys this one until the duration is over; its generation is all that was requested.
pub record Granted (db db' : Db) (l : Lease) (now : Time) (d : ℕ) : Type 0 where
  pub before : Thread
  pub stored : find_thread db l.thread.key ≡ some before
  pub free : (m : Lease) → holds before m now ≡ false
  pub after_claim : Thread
  pub written : find_thread db' l.thread.key ≡ some after_claim
  pub obeyed : (later : Time) → holds after_claim l later ≡ ltb later (now + d)
  pub all_requested : l.generation ≡ after_claim.requested_generation

key-claimed_lease :
    (token : String) (now : Time) (d : ℤ) (t : Thread)
    → (claimed_lease token now d t).thread.key ≡ t.key
unfolding claimed_lease claimed_thread
key-claimed_lease token now d t = refl

module _ (r : Rendering) (w : World) (token : String) (now : Time) (d : ℕ) (s : Reach r start w)
    (drawn : is_set token ≡ true) where
  granted :
      (key : ThreadKey) (t : Thread)
      → first_claimable now w.db.threads ≡ some (key, t)
      → Granted w.db
          (put_thread w.db key (claimed_thread token now (pos d) t))
          (claimed_lease token now (pos d) t)
          now
          d
  granted key t f =
      let i = start-Reach-Inv r s in
      let (e, c) = first_claimable_sound now w.db.threads key t i.ordered f in
      let u : Thread = claimed_thread token now (pos d) t in
      let at : (claimed_lease token now (pos d) t).thread.key ≡ key =
        key-claimed_lease token now (pos d) t ∙ i.keyed key t e in
      record {
        before = t;
        stored = subst (λ x. find_thread w.db x ≡ some t) (sym at) e;
        free = λ m. claimable_unheld now t m c;
        after_claim = u;
        written =
            subst (λ x. find_thread (put_thread w.db key u) x ≡ some u) (sym at)
              (get-put_self w.db.threads key u);
        obeyed = λ later. claimed_holds token now later d t drawn c;
        all_requested = unfold claimed_lease claimed_thread in refl;
      }

  -- In a reachable world, `Claim` grants only a thread that obeys no lease at that time, and the
  -- thread then obeys the new lease up to the end of its duration, for all that was requested.
  pub claim-Granted :
      (l : Lease)
      → (claim token now (pos d) w.db).0 ≡ ok l
      → Granted w.db (claim token now (pos d) w.db).1 l now d
  claim-Granted =
      claim_cases token now (pos d) w.db (λ x. (l : Lease) → x.0 ≡ ok l → Granted w.db x.1 l now d)
        (λ x l h. cc)
        λ key t f l h.
          subst
            (λ y. Granted w.db (put_thread w.db key (claimed_thread token now (pos d) t)) y now d)
            (ok-injective h) (granted key t f)

-- `Claim` finds work whenever there is some: if a stored thread may be claimed, it grants a lease.
pub claim_progress :
    (token : String) (now : Time) (d : ℕ) (db : Db) (key : ThreadKey) (t : Thread)
    → find_thread db key ≡ some t
    → is_claimable now t ≡ true
    → (l : Lease) × ((claim token now (pos (suc d)) db).0 ≡ ok l)
claim_progress token now d db key t e c = elim (Option-cases (first_claimable now db.threads)) [
  | inl idle ↦ absurd (first_claimable_complete now db.threads key t e c idle)
  | inr (f, q) ↦ (
    claimed_lease token now (pos (suc d)) f.1,
    ap (λ x. x.0) (claim-granted token now (pos (suc d)) db f.0 f.1 (ground arith) q),
  )
]
