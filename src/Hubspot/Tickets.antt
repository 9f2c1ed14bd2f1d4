-- ===== src/Hubspot/Tickets.antt =====
-- internal/hubspot/client.go, `Ticket`: the ticket, and the labels and names that are looked up for
-- the fields of the summary. What HubSpot answers is an argument, `domain.Ticket` the result.
pub mod Lookups
use slackbot_hubspot.Base.{
  String, Bool, true, false, not, ◌&&◌, ◌||◌, Option, none, some, List, [], ◌∷◌, ◌==◌, is_set,
  if◌then◌else◌,
}
use slackbot_hubspot.Base.Sorting.{sort}
use slackbot_hubspot.Base.Texts.{plus, trim_space}
use slackbot_hubspot.Domain.Remote.{Ticket, Fault, Answer, answered, failed}
use slackbot_hubspot.Hubspot.Calls.{hubspot_error}

-- What is read of an object's properties; a property that is missing is empty.
pub record TicketObject : Type 0 where
  pub created_at : String
  pub id : String
  pub updated_at : String
  pub owner : String
  pub pipeline : String
  pub priority : String
  pub stage : String
  pub subject : String
  pub create_date : String
  pub modified_date : String
  pub companies : List String
  pub contacts : List String

pub record Stage : Type 0 where
  pub id : String
  pub label : String

pub record Pipeline : Type 0 where
  pub label : String
  pub stages : List Stage

-- A first and a last name.
pub record Person : Type 0 where
  pub first : String
  pub last : String

-- What HubSpot answers.
pub record Source : Type 0 where
  pub ticket : String → Answer TicketObject
  pub pipeline : String → Answer Pipeline
  pub owner : String → Answer Person
  pub company : String → Answer String
  pub contact : String → Answer Person

abbrev pub or_else : String → String → String
or_else s t = if is_set s then s else t

unfoldable pub ticket_url : String → String → String
ticket_url account_id id =
    plus "https://app.hubspot.com/contacts/" (plus account_id (plus "/record/0-5/" id))

unfoldable pub ticket_of : String → TicketObject → Ticket
ticket_of account_id o = record {
  company = "";
  contact = "";
  created_at = or_else o.created_at o.create_date;
  id = o.id;
  owner = o.owner;
  pipeline = o.pipeline;
  priority = o.priority;
  status = o.stage;
  subject = o.subject;
  updated_at = or_else o.updated_at o.modified_date;
  url = ticket_url account_id o.id;
}

-- The label of the first stage with an ID.
abbrev pub stage_label : String → List Stage → String
stage_label id [] = id
stage_label id (s ∷ ss) = let rest = stage_label id ss in if s.id == id then s.label else rest

abbrev pub full_name : Person → String
full_name p = trim_space (plus p.first (plus " " p.last))

-- A lookup that fails makes `Ticket` fail.
abbrev pub looked_up : {A : Type 0} → Answer A → (A → Ticket) → Answer Ticket
looked_up (failed e) f = failed e
looked_up (answered a) f = answered (f a)

abbrev pub then_look : Answer Ticket → (Ticket → Answer Ticket) → Answer Ticket
then_look (failed e) f = failed e
then_look (answered t) f = f t

abbrev pub if_needed : Bool → Answer Ticket → Ticket → Answer Ticket
if_needed needed found t = if needed then found else answered t

-- The first of the IDs in their order, if there is one.
abbrev pub first_of : List String → Option String
first_of [] = none
first_of (s ∷ ss) = some s

module _ (s : Source) (wants : String → Bool) where
  unfoldable pub look_pipeline : Ticket → Answer Ticket
  look_pipeline t =
      if_needed ((wants "Pipeline" || wants "Status") && is_set t.pipeline)
        (looked_up (s.pipeline t.pipeline) (λ p. record t {
          pipeline = or_else p.label t.pipeline;
          status = stage_label t.status p.stages;
        }))
        t

  unfoldable pub look_owner : Ticket → Answer Ticket
  look_owner t =
      if_needed (wants "Owner" && is_set t.owner)
        (looked_up (s.owner t.owner) (λ p. record t { owner = or_else (full_name p) t.owner })) t

  abbrev pub company_of : Option String → Ticket → Answer Ticket
  company_of none t = answered t
  company_of (some id) t = looked_up (s.company id) (λ name. record t { company = name })

  abbrev pub contact_of : Option String → Ticket → Answer Ticket
  contact_of none t = answered t
  contact_of (some id) t = looked_up (s.contact id) (λ p. record t { contact = full_name p })

  unfoldable pub look_company : TicketObject → Ticket → Answer Ticket
  look_company o t =
      if_needed (wants "Company") (company_of (first_of (sort (λ id. id) o.companies)) t) t

  unfoldable pub look_contact : TicketObject → Ticket → Answer Ticket
  look_contact o t =
      if_needed (wants "Contact") (contact_of (first_of (sort (λ id. id) o.contacts)) t) t

  abbrev pub look_up : String → TicketObject → Answer Ticket
  look_up account_id o =
      then_look (look_pipeline (ticket_of account_id o))
        (λ t. then_look (look_owner t) (λ t. then_look (look_company o t) (look_contact o)))

  abbrev pub checked : String → String → Answer TicketObject → Answer Ticket
  checked account_id id (failed e) = failed e
  checked account_id id (answered o) =
      if not (is_set o.id) || not (o.id == id)
      then failed (hubspot_error "invalid_response" false)
      else look_up account_id o

  -- `Ticket`
  unfoldable pub read_ticket : String → String → Answer Ticket
  read_ticket account_id id = checked account_id id (s.ticket id)
