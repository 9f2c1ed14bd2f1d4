-- ===== src/Store/System/Safety.antt =====
-- What the invariant gives over any history of requests.
use slackbot_hubspot.Base.{
  ◌≡◌, ◌≢◌, sym, subst, ◌∙◌, true, false, Option, some, is_set, arith, eq_iff,
}
use mathlib.Core.List.{Memᴰ}
use slackbot_hubspot.Domain.{Time, ThreadKey, Thread, Lease}
use slackbot_hubspot.Store.Rendering.{Rendering}
use slackbot_hubspot.Store.Database.{find_thread, holds}
use slackbot_hubspot.Store.Threads.{Grows, Grows-refl, Grows-trans}
use slackbot_hubspot.Store.System.{World, start, Reach, here, next}
use slackbot_hubspot.Store.System.Moves.{
  Move, stays, starts, goes_on, is_claimed, perform-Move, issued-perform,
}
use slackbot_hubspot.Store.System.Invariant.{Inv, found_eq}
use slackbot_hubspot.Store.System.Invariant.Steps.{Reach-Inv, start-Reach-Inv}

holds-token : (t : Thread) (l : Lease) (now : Time) → holds t l now ≡ true → t.lease_token ≡ l.token
unfolding holds
holds-token t l now h = ground (arith, eq_iff t.lease_token l.token)

not-holds : (t : Thread) (l : Lease) (now : Time) → t.lease_token ≢ l.token → holds t l now ≡ false
unfolding holds
not-holds t l now h = ground (arith, eq_iff t.lease_token l.token)

-- The thread of `l`, where there is one, carries another token.
abbrev IsLost : World → Lease → Type 0
IsLost w l = (u : Thread) → find_thread w.db l.thread.key ≡ some u → u.lease_token ≢ l.token

-- The thread of the key has grown from `t`.
abbrev pub GrownFrom : Thread → World → ThreadKey → Type 0
GrownFrom t w key = (u : Thread) × (find_thread w.db key ≡ some u) × Grows t u

module _ (r : Rendering) where
  -- In every reachable world, a thread never obeys two leases: two issued leases that it accepts,
  -- at whatever times, are one and the same.
  pub one_holder :
      (w : World) (l m : Lease) (t : Thread) (now later : Time)
      → Reach r start w
      → Memᴰ l w.issued
      → Memᴰ m w.issued
      → holds t l now ≡ true
      → holds t m later ≡ true
      → l ≡ m
  one_holder w l m t now later s a b h k =
      (start-Reach-Inv r s).distinct l m a b (sym (holds-token t l now h) ∙ holds-token t m later k)

  IsLost-Move :
      (w : World) (l : Lease) (o p : Option Thread)
      → Memᴰ l w.issued
      → is_set l.token ≡ true
      → ((u : Thread) → o ≡ some u → u.lease_token ≢ l.token)
      → Move w o p
      → (u : Thread) → p ≡ some u
      → u.lease_token ≢ l.token
  IsLost-Move w l o p m s lost (stays e) u q k = lost u (sym e ∙ q) k
  IsLost-Move w l o p m s lost (starts v a b n) u q k = cc (found_eq b q)
  IsLost-Move w l o p m s lost (goes_on t v a b adv) u q k =
      let carried : v.lease_token ≡ l.token =
        subst (λ x. x.lease_token ≡ l.token) (found_eq q b) k in
      let kept : v.lease_token ≡ t.lease_token = adv.same_token (rw carried s) in
      lost t a (sym kept ∙ carried)
  IsLost-Move w l o p m s lost (is_claimed t v a b g n) u q k =
      n l m (sym (subst (λ x. x.lease_token ≡ l.token) (found_eq q b) k))

  Reach-IsLost :
      (w v : World) (l : Lease)
      → Inv w
      → Memᴰ l w.issued
      → IsLost w l
      → Reach r w v
      → Memᴰ l v.issued × IsLost v l
  Reach-IsLost w v l i m lost here = (m, lost)
  Reach-IsLost w v l i m lost (next {u = x} s q a) =
      let (n, k) = Reach-IsLost w x l i m lost s in
      let j = Reach-Inv r i s in
      (
        issued-perform r q x l n,
        IsLost-Move x l _ _ n (j.tokens l n) k (perform-Move r x j l.thread.key q a),
      )

  -- A lease that has lost its thread to another token, or to none, has lost it for good: whatever
  -- is requested later, and whenever it is tried, the thread refuses it.
  pub lost_for_good :
      (w v : World) (l : Lease) (t u : Thread) (now : Time)
      → Reach r start w
      → Memᴰ l w.issued
      → find_thread w.db l.thread.key ≡ some t
      → t.lease_token ≢ l.token
      → Reach r w v
      → find_thread v.db l.thread.key ≡ some u
      → holds u l now ≡ false
  lost_for_good w v l t u now s m e lost later f = not-holds u l now (
      (Reach-IsLost w v l (start-Reach-Inv r s) m
          (λ x h k. lost (subst (λ y. y.lease_token ≡ l.token) (found_eq h e) k)) later).1
        u f)

  GrownFrom-Move :
      (w : World) (t : Thread) (o p : Option Thread)
      → ((u : Thread) × (o ≡ some u) × Grows t u)
      → Move w o p
      → (u : Thread) × (p ≡ some u) × Grows t u
  GrownFrom-Move w t o p (u, e, g) (stays q) = (u, q ∙ e, g)
  GrownFrom-Move w t o p (u, e, g) (starts v a b n) = cc
  GrownFrom-Move w t o p (u, e, g) (goes_on x v a b adv) =
      (v, b, Grows-trans g (subst (λ y. Grows y v) (found_eq a e) adv.grows))
  GrownFrom-Move w t o p (u, e, g) (is_claimed x v a b h n) =
      (v, b, Grows-trans g (subst (λ y. Grows y v) (found_eq a e) h))

  -- From a reachable world, no sequence of requests deletes a thread, replaces its ticket, or its
  -- note once there is one, or takes back its revision or the generation that is requested or completed.
  pub Reach-GrownFrom :
      (w v : World) (key : ThreadKey) (t : Thread)
      → Reach r start w
      → find_thread w.db key ≡ some t
      → Reach r w v
      → GrownFrom t v key
  Reach-GrownFrom w v key t s e here = (t, e, Grows-refl t)
  Reach-GrownFrom w v key t s e (next {u = x} n q a) =
      GrownFrom-Move x t _ _ (Reach-GrownFrom w x key t s e n)
        (perform-Move r x (Reach-Inv r (start-Reach-Inv r s) n) key q a)
