-- ===== src/Store/Threads.antt =====
-- What holds of every stored thread, and of a lease on it, between two operations of the store
-- (internal/store/records.go and work.go).
pub mod Requests
pub mod Mutations
use slackbot_hubspot.Base.{◌≡◌, ◌∙◌, ◌≤◌, ◌<◌, true, false, not, is_set, arith}
use slackbot_hubspot.Domain.{is_running, is_up_to_date, is_stopped, Thread, Lease}

-- A thread is stopped exactly while it is inactive, runs exactly while it has a lease token, and
-- is up to date exactly while it is active with no generation outstanding.
pub record IsConsistent (t : Thread) : Type 0 where
  pub ordered : t.completed_generation ≤ t.requested_generation
  pub unleased : is_set t.lease_token ≡ false → t.lease_expires ≡ 0
  pub leased : is_running t.state ≡ is_set t.lease_token
  pub activity : t.active ≡ not (is_stopped t.state)
  pub settled : is_up_to_date t.state ≡ true → t.completed_generation ≡ t.requested_generation
  pub waiting :
      t.active ≡ true
      → is_up_to_date t.state ≡ false
      → t.completed_generation < t.requested_generation

-- What a lease that carries the thread's token promises.
pub record Grants (l : Lease) (t : Thread) : Type 0 where
  pub fresh : t.completed_generation < l.generation
  pub requested : l.generation ≤ t.requested_generation
  pub same_revision : l.revision ≡ t.revision

-- What no operation takes back: the ticket, the note once there is one, and the counters.
pub record Grows (t u : Thread) : Type 0 where
  pub same_key : u.key ≡ t.key
  pub same_ticket : u.ticket_id ≡ t.ticket_id
  pub same_note : is_set t.note_id ≡ true → u.note_id ≡ t.note_id
  pub revision : t.revision ≤ u.revision
  pub completed : t.completed_generation ≤ u.completed_generation
  pub requested : t.requested_generation ≤ u.requested_generation

-- What every operation but `Claim` makes of a thread: it hands out no lease, and a lease that it
-- leaves in place keeps its revision and its work.
pub record Advances (t u : Thread) : Type 0 where
  pub grows : Grows t u
  pub consistent : IsConsistent u
  pub same_token : is_set u.lease_token ≡ true → u.lease_token ≡ t.lease_token
  pub same_revision : is_set u.lease_token ≡ true → u.revision ≡ t.revision
  pub same_completed : is_set u.lease_token ≡ true → u.completed_generation ≡ t.completed_generation

pub Grows-refl : (t : Thread) → Grows t t
Grows-refl t = ground arith

pub Grows-trans : {t u v : Thread} → Grows t u → Grows u v → Grows t v
Grows-trans {t} {u} {v} g h = record {
  same_key = h.same_key ∙ g.same_key;
  same_ticket = h.same_ticket ∙ g.same_ticket;
  same_note = λ s. let e = g.same_note s in h.same_note (rw e s) ∙ e;
  revision = omega arith;
  completed = omega arith;
  requested = omega arith;
}

pub Advances-refl : (t : Thread) → IsConsistent t → Advances t t
Advances-refl t c = ground arith

pub Grants-Advances :
    (l : Lease) {t u : Thread}
    → Advances t u
    → is_set u.lease_token ≡ true
    → Grants l t
    → Grants l u
Grants-Advances l a s g = ground arith

pub Advances-trans : {t u v : Thread} → Advances t u → Advances u v → Advances t v
Advances-trans {t} {u} {v} a b = record {
  grows = Grows-trans a.grows b.grows;
  consistent = b.consistent;
  same_token = λ s. let e = b.same_token s in e ∙ a.same_token (rw e at s);
  same_revision = λ s. b.same_revision s ∙ a.same_revision (rw (b.same_token s) at s);
  same_completed = λ s. b.same_completed s ∙ a.same_completed (rw (b.same_token s) at s);
}
