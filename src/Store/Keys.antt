-- ===== src/Store/Keys.antt =====
-- internal/store/records.go and notifications.go: the names under which the records are stored.
pub mod Encoding
pub mod Texts
pub mod Names
pub mod Apart
use slackbot_hubspot.Base.{
  ℕ, ◌+◌, ◌-◌, ◌*◌, ◌/◌, ◌%◌, ◌≡◌, ◌↔◌, String, true, ◌&&◌, List, [], ◌∷◌, ◌++◌, arith, ◌==◌,
  eq_iff, ltb, nat_beq, if◌then◌else◌,
}
use slackbot_hubspot.Base.Bytes.{bytes}
use slackbot_hubspot.Domain.{ThreadKey, NotificationId, key_beq, key_beq_iff, id_beq, id_beq_iff}
use slackbot_hubspot.Backend.{Keyed}

-- The alphabet of `base64.RawURLEncoding`: A-Z, a-z, 0-9, "-" and "_".
unfoldable pub digit : ℕ → ℕ
digit d =
    if ltb d 26
    then d + 65
    else if ltb d 52
    then d + 71
    else if ltb d 62
    then d - 4
    else if nat_beq d 62
    then 45
    else 95

-- `base64.RawURLEncoding.EncodeToString`, which writes no padding.
unfoldable pub base64 : List ℕ → List ℕ
unfolding digit
base64 [] = []
base64 (a ∷ []) = digit (a / 4) ∷ digit (a % 4 * 16) ∷ []
base64 (a ∷ b ∷ []) = digit (a / 4) ∷ digit (a % 4 * 16 + b / 16) ∷ digit (b % 16 * 4) ∷ []
base64 (a ∷ b ∷ c ∷ rest) =
    digit (a / 4)
    ∷ digit (a % 4 * 16 + b / 16)
    ∷ digit (b % 16 * 4 + c / 64)
    ∷ digit (c % 64)
    ∷ base64 rest

unfoldable pub component : String → List ℕ
unfolding base64 bytes
component value = base64 (bytes value)

pub record EventKey : Type 0 where
  pub workspace : String
  pub event : String

pub record ActionKey : Type 0 where
  pub workspace : String
  pub channel : String
  pub message : String

pub record UploadKey : Type 0 where
  pub workspace : String
  pub file : String

abbrev pub slash : ℕ
slash = 47

-- `threadKey`
unfoldable pub thread_path : ThreadKey → List ℕ
unfolding component
thread_path key =
    bytes "threads/"
    ++ component key.workspace_id
    ++ slash ∷ (component key.channel_id ++ slash ∷ component key.thread_ts)

-- `uploadKey`
unfoldable pub upload_path : UploadKey → List ℕ
unfolding component
upload_path key = bytes "uploads/" ++ component key.workspace ++ slash ∷ component key.file

unfoldable pub event_path : EventKey → List ℕ
unfolding component
event_path key = bytes "events/" ++ component key.workspace ++ slash ∷ component key.event

unfoldable pub action_path : ActionKey → List ℕ
unfolding component
action_path key =
    bytes "actions/"
    ++ component key.workspace
    ++ slash ∷ (component key.channel ++ slash ∷ component key.message)

unfoldable pub notification_path : NotificationId → List ℕ
unfolding component
notification_path (NotificationId.confirmation workspace event) =
    bytes "notifications/" ++ component workspace ++ slash ∷ component event
notification_path (NotificationId.reaction_job token) =
    bytes "notifications/" ++ bytes "reactions/" ++ bytes token

pub event_beq_iff :
    (a b : EventKey) → (a.workspace == b.workspace && a.event == b.event ≡ true) ↔ (a ≡ b)
event_beq_iff a b = ground (arith, eq_iff a.workspace b.workspace, eq_iff a.event b.event)

pub action_beq_iff :
    (a b : ActionKey)
    → (a.workspace == b.workspace && a.channel == b.channel && a.message == b.message ≡ true)
      ↔ (a ≡ b)
action_beq_iff a b =
    ground (
      arith,
      eq_iff a.workspace b.workspace,
      eq_iff a.channel b.channel,
      eq_iff a.message b.message,
    )

pub upload_beq_iff :
    (a b : UploadKey) → (a.workspace == b.workspace && a.file == b.file ≡ true) ↔ (a ≡ b)
upload_beq_iff a b = ground (arith, eq_iff a.workspace b.workspace, eq_iff a.file b.file)

instance abbrev pub thread_keyed : Keyed ThreadKey
thread_keyed = record { beq = key_beq; beq_iff = key_beq_iff; path = thread_path }

instance abbrev pub event_keyed : Keyed EventKey
event_keyed = record {
  beq = λ a b. a.workspace == b.workspace && a.event == b.event;
  beq_iff = event_beq_iff;
  path = event_path;
}

instance abbrev pub action_keyed : Keyed ActionKey
action_keyed = record {
  beq = λ a b. a.workspace == b.workspace && a.channel == b.channel && a.message == b.message;
  beq_iff = action_beq_iff;
  path = action_path;
}

instance abbrev pub upload_keyed : Keyed UploadKey
upload_keyed = record {
  beq = λ a b. a.workspace == b.workspace && a.file == b.file;
  beq_iff = upload_beq_iff;
  path = upload_path;
}

instance abbrev pub notification_keyed : Keyed NotificationId
notification_keyed = record { beq = id_beq; beq_iff = id_beq_iff; path = notification_path }
