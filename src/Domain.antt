-- ===== src/Domain.antt =====
-- internal/domain/domain.go: the data that the store, the worker and the HTTP front end exchange.
--
-- A `time.Time` is a number of nanoseconds after the zero time, which is 0, so that `IsZero` is a
-- test against 0 and `a.After(b)` is `b < a`. A `time.Duration` is a signed integer. Counters of
-- Go type int and int64 are natural numbers. The values that the code gives to the string fields
-- `State`, `Kind`, `Command` and `Outcome` are constructors. A text that is only compared or
-- passed on is a `String`; the texts that the code takes apart or joins, error summaries and
-- replies, are bytes. A notification's ID keeps the parts that the store joins by "/".
mod Keys
pub mod Remote
use slackbot_hubspot.Base.{
  ◌≡◌, refl, ◌⊎◌, inl, inr, ℕ, suc, ◌+◌, ◌-◌, String, Option, List, [], ◌∷◌, Bool, true, false, ltb,
  nat_beq,
}
pub use Keys.{ThreadKey, NotificationId, key_beq_iff, id_beq_iff}
unfoldable pub use Keys.{key_beq, id_beq}

abbrev pub Time : Type 0
Time = ℕ

abbrev pub zero_time : Time
zero_time = 0

-- `t.After(u)`
abbrev pub after : Time → Time → Bool
after t u = ltb u t

-- `t.IsZero()`
abbrev pub is_zero_time : Time → Bool
is_zero_time t = nat_beq t 0

-- `negsuc n` is -(n + 1).
pub data ℤ : Type 0 where
  pos : ℕ → ℤ
  negsuc : ℕ → ℤ

-- `duration <= 0`
abbrev pub is_nonpositive : ℤ → Bool
is_nonpositive (pos n) = nat_beq n 0
is_nonpositive (negsuc n) = true

-- `t.Add(duration)`
abbrev pub add_time : Time → ℤ → Time
add_time t (pos n) = t + n
add_time t (negsuc n) = t - suc n

abbrev pub Bytes : Type 0
Bytes = List ℕ

abbrev pub is_empty : Bytes → Bool
is_empty [] = true
is_empty (b ∷ bs) = false

-- The sentinel errors, and the messages of `errors.New`.
pub data Error : Type 0 where
  lease_lost not_found no_work : Error
  invalid : String → Error

pub data Result {ℓ} (A : Type ℓ) : Type ℓ where
  ok : A → Result A
  err : Error → Result A

pub ok-injective {ℓ} : {A : Type ℓ} {a b : A} → ok a ≡ ok b → a ≡ b
ok-injective h = cc

pub Result-cases {ℓ} :
    {A : Type ℓ} (m : Result A) → ((a : A) × (m ≡ ok a)) ⊎ ((e : Error) × (m ≡ err e))
Result-cases (ok a) = inl (a, refl)
Result-cases (err e) = inr (e, refl)

infixl 5 ◌>>=◌
abbrev pub ◌>>=◌ {ℓ κ} : {A : Type ℓ} {B : Type κ} → Result A → (A → Result B) → Result B
ok a >>= f = f a
err e >>= f = err e

pub record SlackText : Type 0 where
  pub kind : String
  pub text : Bytes

pub record SlackBlock : Type 0 where
  pub kind : String
  pub text : Option SlackText
  pub elements : List SlackText
  pub fields : List SlackText

pub data State : Type 0 where
  pending running up_to_date retrying failed stopped : State

abbrev pub is_pending : State → Bool
is_pending State.pending = true
is_pending _ = false

abbrev pub is_running : State → Bool
is_running State.running = true
is_running _ = false

abbrev pub is_up_to_date : State → Bool
is_up_to_date State.up_to_date = true
is_up_to_date _ = false

abbrev pub is_failed : State → Bool
is_failed State.failed = true
is_failed _ = false

abbrev pub is_stopped : State → Bool
is_stopped State.stopped = true
is_stopped _ = false

pub record Thread : Type 0 where
  pub attachment_retry_ts : String
  pub active : Bool
  pub attempts : ℕ
  pub changed_at : Time
  pub changed_by : String
  pub completed_generation : ℕ
  pub current_error : Bytes
  pub historical_error : Bytes
  pub key : ThreadKey
  pub last_command_ts : String
  pub last_event_id : String
  pub last_message_ts : String
  pub last_success : Time
  pub last_synced_message_ts : String
  pub lease_expires : Time
  pub lease_token : String
  pub next_attempt : Time
  pub note_id : String
  pub partial_error : Bytes
  pub requested_generation : ℕ
  pub revision : ℕ
  pub state : State
  pub ticket_id : String
  pub ticket_url : String

pub data Command : Type 0 where
  sync untrack resume status : Command
  other : String → Command

pub data Kind : Type 0 where
  command link message reply : Kind
  unsupported : String → Kind

pub record Event : Type 0 where
  pub actor : String
  pub command : Command
  pub id : String
  pub key : ThreadKey
  pub kind : Kind
  pub message_ts : String
  pub now : Time
  pub reply_blocks : List SlackBlock
  pub reply : Bytes
  pub ticket_id : String
  pub ticket_url : String

pub data Outcome : Type 0 where
  no_outcome linked conflict already_linked queued stale stopped resumed : Outcome

pub record RecordResult : Type 0 where
  pub duplicate : Bool
  pub outcome : Outcome
  pub thread : Option Thread

pub record Lease : Type 0 where
  pub expires : Time
  pub generation : ℕ
  pub recovered : Bool
  pub revision : ℕ
  pub thread : Thread
  pub token : String

pub record Completion : Type 0 where
  pub last_message_ts : String
  pub partial_error : Bytes
  pub retry_at : Time

pub record Failure : Type 0 where
  pub error : Bytes
  pub next_attempt : Time
  pub permanent : Bool

pub data UploadState : Type 0 where
  fresh running retrying failed complete : UploadState

pub record Upload : Type 0 where
  pub last_retry_ts : String
  pub attempts : ℕ
  pub current_error : Bytes
  pub file_id : String
  pub hubspot_id : String
  pub lease_expires : Time
  pub lease_token : String
  pub next_attempt : Time
  pub state : UploadState
  pub workspace_id : String

pub record Notification : Type 0 where
  pub blocks : List SlackBlock
  pub attempts : ℕ
  pub id : NotificationId
  pub key : ThreadKey
  pub lease_expires : Time
  pub lease_token : String
  pub reactions : Bool
  pub text : Bytes
  pub update_tracking : Bool

pub record WorkCounts : Type 0 where
  pub leased : ℕ
  pub pending : ℕ
