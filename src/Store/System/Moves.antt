-- ===== src/Store/System/Moves.antt =====
-- What one request does to the thread of one key, claims included.
use slackbot_hubspot.Base.{◌≡◌, ◌≢◌, refl, String, Option, none, some, Bool-cases, inl, inr}
use mathlib.Core.List.{Memᴰ}
use slackbot_hubspot.Domain.{Time, ℤ, ThreadKey, Thread, Lease, key_beq, key_beq_iff}
use slackbot_hubspot.Backend.Laws.{get-put}
use slackbot_hubspot.Store.Rendering.{Rendering}
use slackbot_hubspot.Store.Keys.{thread_keyed}
use slackbot_hubspot.Store.Database.{find_thread}
use slackbot_hubspot.Store.Work.{claim, claimed_thread}
use slackbot_hubspot.Store.Work.Claims.{claim_cases, first_claimable_sound}
use slackbot_hubspot.Store.Threads.{Advances, Grows}
use slackbot_hubspot.Store.Threads.Mutations.{claimed_thread-Grows}
use slackbot_hubspot.Store.System.{World, Request, claims, issue, perform, Admissible}
use slackbot_hubspot.Store.System.Changes.{Change, same, created, advanced}
use slackbot_hubspot.Store.System.Invariant.{Inv}
use slackbot_hubspot.Store.System.Invariant.Steps.{perform-Changes}

pub data Move (w : World) (o p : Option Thread) : Type 0 where
  stays : p ≡ o → Move w o p
  starts : (u : Thread) → o ≡ none → p ≡ some u → u.lease_token ≡ "" → Move w o p
  goes_on : (t u : Thread) → o ≡ some t → p ≡ some u → Advances t u → Move w o p
  is_claimed :
      (t u : Thread)
      → o ≡ some t
      → p ≡ some u
      → Grows t u
      → ((l : Lease) → Memᴰ l w.issued → l.token ≢ u.lease_token)
      → Move w o p

Move-Change : (w : World) (key : ThreadKey) (o p : Option Thread) → Change key o p → Move w o p
Move-Change w key o p (same e) = stays e
Move-Change w key o p (created u a b k l c) = starts u a b l
Move-Change w key o p (advanced t u a b v) = goes_on t u a b v

module _ (r : Rendering) (w : World) (i : Inv w) (key : ThreadKey) where
  claim-Move :
      (token : String) (now : Time) (d : ℤ)
      → Admissible (claims token now d) w
      → Move w (find_thread w.db key) (find_thread (claim token now d w.db).1 key)
  claim-Move token now d a =
      claim_cases token now d w.db (λ x. Move w (find_thread w.db key) (find_thread x.1 key))
        (λ x. stays refl)
        λ at t f.
          let (e, c) = first_claimable_sound now w.db.threads at t i.ordered f in
          let u = claimed_thread token now d t in
          elim (Bool-cases (key_beq at key)) [
            | inl hit ↦
                is_claimed t u (rw (← (key_beq_iff at key).0 hit) e)
                  (rw (get-put w.db.threads at key u, hit))
                  (claimed_thread-Grows t (i.consistent at t e) token now d)
                  (unfold claimed_thread in a.1)
            | inr miss ↦ stays (rw (get-put w.db.threads at key u, miss))
          ]

  -- One request leaves the thread of a key as it is, creates it, advances it, or claims it under a
  -- token that no lease has had.
  pub perform-Move :
      (q : Request)
      → Admissible q w
      → Move w (find_thread w.db key) (find_thread (perform r q w).db key)
  unfolding perform
  perform-Move (claims token now d) a = claim-Move token now d a
  perform-Move q a = Move-Change w key _ _ ((perform-Changes r q w a (λ h. h) i).each key)

issued_claim :
    (token : String) (now : Time) (d : ℤ) (w : World) (l : Lease)
    → Memᴰ l w.issued
    → Memᴰ l (issue (claim token now d w.db).0 w.issued)
issued_claim token now d w l m =
    claim_cases token now d w.db (λ x. Memᴰ l (issue x.0 w.issued)) (λ x. m)
      (λ key t f. Memᴰ.tail m)

-- An issued lease stays on record.
pub issued-perform :
    (r : Rendering) (q : Request) (w : World) (l : Lease)
    → Memᴰ l w.issued
    → Memᴰ l (perform r q w).issued
unfolding perform
issued-perform r (claims token now d) w l m = issued_claim token now d w l m
issued-perform r q w l m = m
