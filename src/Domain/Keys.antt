-- ===== src/Domain/Keys.antt =====
-- internal/domain/domain.go: the key of a thread, compared field by field.
use slackbot_hubspot.Base.{◌≡◌, ◌↔◌, String, Bool, true, false, ◌&&◌, ◌==◌, eq_iff, arith}

pub record ThreadKey : Type 0 where
  pub channel_id : String
  pub thread_ts : String
  pub workspace_id : String

-- `a == b`
unfoldable pub key_beq : ThreadKey → ThreadKey → Bool
key_beq a b =
    a.channel_id == b.channel_id && a.thread_ts == b.thread_ts && a.workspace_id == b.workspace_id

pub key_beq_iff : (a b : ThreadKey) → (key_beq a b ≡ true) ↔ (a ≡ b)
unfolding key_beq
key_beq_iff a b = ground (
  arith,
  eq_iff a.channel_id b.channel_id,
  eq_iff a.thread_ts b.thread_ts,
  eq_iff a.workspace_id b.workspace_id,
)

-- The ID of a confirmation is made of its workspace and event, that of a reaction job of a token.
pub data NotificationId : Type 0 where
  confirmation : String → String → NotificationId
  reaction_job : String → NotificationId

unfoldable pub id_beq : NotificationId → NotificationId → Bool
id_beq (NotificationId.confirmation w e) (NotificationId.confirmation w' e') = w == w' && e == e'
id_beq (NotificationId.reaction_job t) (NotificationId.reaction_job t') = t == t'
id_beq _ _ = false

pub id_beq_iff : (a b : NotificationId) → (id_beq a b ≡ true) ↔ (a ≡ b)
unfolding id_beq
id_beq_iff (NotificationId.confirmation w e) (NotificationId.confirmation w' e') =
    ground (arith, eq_iff w w', eq_iff e e')
id_beq_iff (NotificationId.reaction_job t) (NotificationId.reaction_job t') =
    ground (arith, eq_iff t t')
id_beq_iff (NotificationId.confirmation w e) (NotificationId.reaction_job t') = ground arith
id_beq_iff (NotificationId.reaction_job t) (NotificationId.confirmation w' e') = ground arith
