-- ===== src/Domain/Remote.antt =====
-- internal/domain/domain.go: what the clients of Slack and HubSpot exchange with the worker and the
-- front end. A file's bytes are not looked at, and a size is a natural number of bytes.
use slackbot_hubspot.Base.{String, Bool, List, ◌++◌, ◌∷◌, ◌≡◌, ◌⊎◌, inl, inr, refl}
use slackbot_hubspot.Domain.{ℤ, Bytes, Error}

pub record File : Type 0 where
  pub id : String
  pub mime : String
  pub name : String
  pub size : ℤ
  pub url : String

pub record Message : Type 0 where
  pub bot_id : String
  pub bot_reactions : List String
  pub files : List File
  pub permalink : String
  pub sender_name : String
  pub subtype : String
  pub text : String
  pub thread_ts : String
  pub timestamp : String
  pub user_id : String

pub record Ticket : Type 0 where
  pub company : String
  pub contact : String
  pub created_at : String
  pub id : String
  pub owner : String
  pub pipeline : String
  pub priority : String
  pub status : String
  pub subject : String
  pub updated_at : String
  pub url : String

pub record RemoteError : Type 0 where
  pub code : Bytes
  pub retry_after : ℤ
  pub service : Bytes
  pub temporary : Bool

-- `RemoteError.Error`
abbrev pub message_of : RemoteError → Bytes
message_of e = e.service ++ b':' ∷ b' ' ∷ e.code

-- What `errors.As` and `errors.Is` tell apart in the errors of an operation.
pub data Fault : Type 0 where
  remote : RemoteError → Fault
  stored : Error → Fault
  canceled deadline_exceeded : Fault
  other : String → Fault

-- A call of a client.
pub data Answer {ℓ} (A : Type ℓ) : Type ℓ where
  answered : A → Answer A
  failed : Fault → Answer A

pub Answer-cases {ℓ} :
    {A : Type ℓ} (m : Answer A) → ((a : A) × (m ≡ answered a)) ⊎ ((f : Fault) × (m ≡ failed f))
Answer-cases (answered a) = inl (a, refl)
Answer-cases (failed f) = inr (f, refl)
