-- ===== src/Store/Work/Claims.antt =====
-- internal/store/work.go, `Claim`: what the loop finds.
use slackbot_hubspot.Base.{
  ◌≡◌, ◌≢◌, String, true, false, none, some, [], ◌∷◌, arith, Bool-cases, Option-cases, inl, inr,
}
use slackbot_hubspot.Domain.{
  Time, ℤ, is_nonpositive, invalid, no_work, Error, Result, ok, err, ThreadKey, Thread, Lease,
  key_beq_iff,
}
use slackbot_hubspot.Backend.{Table, get}
use slackbot_hubspot.Backend.Order.{IsOrdered, get_of_rest}
use slackbot_hubspot.Store.Keys.{thread_keyed}
use slackbot_hubspot.Store.Database.{Db, put_thread}
use slackbot_hubspot.Store.Work.{
  is_claimable, claimed_thread, claimed_lease, first_claimable, claim,
}

-- The thread that the loop settles on is the one stored under its key, and may be claimed.
pub first_claimable_sound :
    (now : Time) (m : Table ThreadKey Thread) (key : ThreadKey) (t : Thread)
    → IsOrdered m
    → first_claimable now m ≡ some (key, t)
    → (get m key ≡ some t) × (is_claimable now t ≡ true)
unfolding first_claimable get
first_claimable_sound now [] key t o h = cc
first_claimable_sound now ((j, u) ∷ m) key t o h = elim (Bool-cases (is_claimable now u)) [
  | inl hit ↦ ground (arith, key_beq_iff j key)
  | inr miss ↦
      let (e, c) = first_claimable_sound now m key t o.2 (rw (miss, first_claimable) at h) in
      (get_of_rest m j key u t o e, c)
]

-- And it passes over no thread that may be claimed.
pub first_claimable_complete :
    (now : Time) (m : Table ThreadKey Thread) (key : ThreadKey) (t : Thread)
    → get m key ≡ some t
    → is_claimable now t ≡ true
    → first_claimable now m ≢ none
unfolding first_claimable get
first_claimable_complete now [] key t e c = cc
first_claimable_complete now ((j, u) ∷ m) key t e c =
    ground (arith, first_claimable_complete now m key t)

module _ (token : String) (now : Time) (d : ℤ) (db : Db) where
  claim-refused :
      is_nonpositive d ≡ true
      → claim token now d db ≡ (err (invalid "lease duration must be positive"), db)
  unfolding claim
  claim-refused h = ground arith

  claim-idle :
      is_nonpositive d ≡ false
      → first_claimable now db.threads ≡ none
      → claim token now d db ≡ (err no_work, db)
  unfolding claim
  claim-idle h e = ground arith

  pub claim-granted :
      (key : ThreadKey) (t : Thread)
      → is_nonpositive d ≡ false
      → first_claimable now db.threads ≡ some (key, t)
      → claim token now d db
        ≡ (ok (claimed_lease token now d t), put_thread db key (claimed_thread token now d t))
  unfolding claim
  claim-granted key t h e = ground arith

  -- `Claim` refuses, finds nothing, or grants the thread that the loop settles on.
  pub claim_cases :
      (P : Result Lease × Db → Type 0)
      → ((x : Error) → P (err x, db))
      → ((key : ThreadKey) (t : Thread)
          → first_claimable now db.threads ≡ some (key, t)
          → P (ok (claimed_lease token now d t), put_thread db key (claimed_thread token now d t)))
      → P (claim token now d db)
  claim_cases P refused granted = elim (Bool-cases (is_nonpositive d)) [
    | inl bad ↦ rw (claim-refused bad) (refused _)
    | inr good ↦ elim (Option-cases (first_claimable now db.threads)) [
      | inl idle ↦ rw (claim-idle good idle) (refused _)
      | inr (f, e) ↦ rw (claim-granted f.0 f.1 good e) (granted f.0 f.1 e)
    ]
  ]
