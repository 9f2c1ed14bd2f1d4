-- ===== src/Hubspot/Tickets/Lookups.antt =====
-- internal/hubspot/client.go, `Ticket`: which ticket comes back, and what its fields rest on.
use slackbot_hubspot.Base.{
  ◌≡◌, refl, ap, subst, String, Bool, true, false, not, ◌||◌, Option, none, some, ◌==◌, is_set,
  arith, eq_iff, if_rule,
}
use slackbot_hubspot.Base.Sorting.{sort}
use slackbot_hubspot.Domain.Remote.{Ticket, Answer, answered, failed}
use slackbot_hubspot.Hubspot.Tickets.{
  TicketObject, Source, ticket_url, ticket_of, looked_up, then_look, if_needed, first_of,
  look_pipeline, look_owner, company_of, contact_of, look_company, look_contact, look_up, checked,
  read_ticket,
}

-- What lookups leave alone.
record IsOf (id url subject : String) (t : Ticket) : Type 0 where
  pub same_id : t.id ≡ id
  pub same_url : t.url ≡ url
  pub same_subject : t.subject ≡ subject

abbrev OfTicket : (Ticket → Type 0) → Answer Ticket → Type 0
OfTicket P (answered t) = P t
OfTicket P (failed e) = Unit {0}

module _ (P : Ticket → Type 0) where
  looked_up-OfTicket :
      {A : Type 0} (a : Answer A) (f : A → Ticket)
      → ((x : A) → P (f x))
      → OfTicket P (looked_up a f)
  looked_up-OfTicket (failed e) f h = tt
  looked_up-OfTicket (answered x) f h = h x

  then_look-OfTicket :
      (a : Answer Ticket) (f : Ticket → Answer Ticket)
      → OfTicket P a
      → ((t : Ticket) → P t → OfTicket P (f t))
      → OfTicket P (then_look a f)
  then_look-OfTicket (failed e) f h k = tt
  then_look-OfTicket (answered t) f h k = k t h

  if_needed-OfTicket :
      (b : Bool) (found : Answer Ticket) (t : Ticket)
      → OfTicket P found
      → P t
      → OfTicket P (if_needed b found t)
  if_needed-OfTicket true found t h k = h
  if_needed-OfTicket false found t h k = k

module _ (s : Source) (wants : String → Bool) (id url subject : String) where
  company_of-IsOf :
      (o : Option String) (t : Ticket)
      → IsOf id url subject t
      → OfTicket (IsOf id url subject) (company_of s wants o t)
  company_of-IsOf none t h = h
  company_of-IsOf (some i) t h =
      looked_up-OfTicket (IsOf id url subject) (s.company i) _
        (λ n. record { same_id = h.same_id; same_url = h.same_url; same_subject = h.same_subject })

  contact_of-IsOf :
      (o : Option String) (t : Ticket)
      → IsOf id url subject t
      → OfTicket (IsOf id url subject) (contact_of s wants o t)
  contact_of-IsOf none t h = h
  contact_of-IsOf (some i) t h =
      looked_up-OfTicket (IsOf id url subject) (s.contact i) _
        (λ n. record { same_id = h.same_id; same_url = h.same_url; same_subject = h.same_subject })

  look_up-IsOf :
      (account_id : String) (o : TicketObject)
      → IsOf id url subject (ticket_of account_id o)
      → OfTicket (IsOf id url subject) (look_up s wants account_id o)
  unfolding look_pipeline look_owner look_company look_contact
  look_up-IsOf account_id o h =
      let P = IsOf id url subject in
      then_look-OfTicket P (look_pipeline s wants (ticket_of account_id o)) _
        (if_needed-OfTicket P _ _ (ticket_of account_id o)
          (looked_up-OfTicket P (s.pipeline (ticket_of account_id o).pipeline) _ (λ p. record {
            same_id = h.same_id;
            same_url = h.same_url;
            same_subject = h.same_subject;
          }))
          h)
        (λ t k.
          then_look-OfTicket P (look_owner s wants t) _
            (if_needed-OfTicket P _ _ t
              (looked_up-OfTicket P (s.owner t.owner) _ (λ p. record {
                same_id = k.same_id;
                same_url = k.same_url;
                same_subject = k.same_subject;
              }))
              k)
            (λ u m.
              then_look-OfTicket P (look_company s wants o u) _
                (if_needed-OfTicket P (wants "Company") _ u
                  (company_of-IsOf (first_of (sort (λ i. i) o.companies)) u m) m)
                (λ w n.
                  if_needed-OfTicket P (wants "Contact") _ w
                    (contact_of-IsOf (first_of (sort (λ i. i) o.contacts)) w n) n)))

checked-IsOf :
    (s : Source) (wants : String → Bool) (account_id id : String) (a : Answer TicketObject)
    → OfTicket
        (λ t. (t.id ≡ id) × (t.url ≡ ticket_url account_id id))
        (checked s wants account_id id a)
unfolding ticket_of
checked-IsOf s wants account_id id (failed e) = tt
checked-IsOf s wants account_id id (answered o) =
    if_rule (OfTicket (λ t. (t.id ≡ id) × (t.url ≡ ticket_url account_id id)))
      (not (is_set o.id) || not (o.id == id)) _ _ (λ other. tt)
      (λ asked.
        let same : o.id ≡ id = (eq_iff o.id id).0 (ground (arith, asked)) in
        of_ticket (look_up s wants account_id o) (
          look_up-IsOf s wants id (ticket_url account_id id) o.subject account_id o (record {
            same_id = same;
            same_url = ap (ticket_url account_id) same;
            same_subject = refl;
          })))
  where
    of_ticket :
        (r : Answer Ticket)
        → OfTicket (IsOf id (ticket_url account_id id) o.subject) r
        → OfTicket (λ t. (t.id ≡ id) × (t.url ≡ ticket_url account_id id)) r
    of_ticket (failed e) h = tt
    of_ticket (answered t) h = (h.same_id, h.same_url)

-- The ticket that comes back is the one that was asked for, under its own URL, whatever its labels
-- and names are.
pub ticket_asked_for :
    (s : Source) (wants : String → Bool) (account_id id : String) (t : Ticket)
    → read_ticket s wants account_id id ≡ answered t
    → (t.id ≡ id) × (t.url ≡ ticket_url account_id id)
unfolding read_ticket
ticket_asked_for s wants account_id id t e =
    subst (OfTicket (λ u. (u.id ≡ id) × (u.url ≡ ticket_url account_id id))) e
      (checked-IsOf s wants account_id id (s.ticket id))
