-- ===== src/Store/Keys/Apart.antt =====
-- internal/store: the names of all records, which stand in one space.
use slackbot_hubspot.Base.{◌≡◌, ap, List, ℕ, arith}
use slackbot_hubspot.Base.Bytes.{bytes, utf8}
use slackbot_hubspot.Domain.{ThreadKey, NotificationId}
use slackbot_hubspot.Store.Keys.{
  EventKey, ActionKey, UploadKey, thread_path, upload_path, event_path, action_path,
  notification_path,
}
use slackbot_hubspot.Store.Keys.Names.{
  thread_path-injective, upload_path-injective, event_path-injective, action_path-injective,
  notification_path-injective,
}

-- What a record is of.
pub data Subject : Type 0 where
  thread : ThreadKey → Subject
  upload : UploadKey → Subject
  event : EventKey → Subject
  action : ActionKey → Subject
  notification : NotificationId → Subject

-- The name under which the record is stored.
unfoldable pub stored_name : Subject → List ℕ
stored_name (Subject.thread k) = thread_path k
stored_name (Subject.upload k) = upload_path k
stored_name (Subject.event k) = event_path k
stored_name (Subject.action k) = action_path k
stored_name (Subject.notification k) = notification_path k

-- No two records share a name: the names of any two threads, uploads, events, actions or
-- notifications that are equal, byte for byte, are the names of one record.
pub stored_name-injective : (a b : Subject) → stored_name a ≡ stored_name b → a ≡ b
unfolding stored_name thread_path upload_path event_path action_path notification_path bytes utf8
stored_name-injective (Subject.thread a) (Subject.thread b) h =
    ap Subject.thread (thread_path-injective a b h)
stored_name-injective (Subject.thread a) (Subject.upload b) h = absurd (ground (arith, h))
stored_name-injective (Subject.thread a) (Subject.event b) h = absurd (ground (arith, h))
stored_name-injective (Subject.thread a) (Subject.action b) h = absurd (ground (arith, h))
stored_name-injective (Subject.thread a)
      (Subject.notification (NotificationId.confirmation b_w b_e)) h =
    absurd (ground (arith, h))
stored_name-injective (Subject.thread a) (Subject.notification (NotificationId.reaction_job b_t))
      h =
    absurd (ground (arith, h))
stored_name-injective (Subject.upload a) (Subject.thread b) h = absurd (ground (arith, h))
stored_name-injective (Subject.upload a) (Subject.upload b) h =
    ap Subject.upload (upload_path-injective a b h)
stored_name-injective (Subject.upload a) (Subject.event b) h = absurd (ground (arith, h))
stored_name-injective (Subject.upload a) (Subject.action b) h = absurd (ground (arith, h))
stored_name-injective (Subject.upload a)
      (Subject.notification (NotificationId.confirmation b_w b_e)) h =
    absurd (ground (arith, h))
stored_name-injective (Subject.upload a) (Subject.notification (NotificationId.reaction_job b_t))
      h =
    absurd (ground (arith, h))
stored_name-injective (Subject.event a) (Subject.thread b) h = absurd (ground (arith, h))
stored_name-injective (Subject.event a) (Subject.upload b) h = absurd (ground (arith, h))
stored_name-injective (Subject.event a) (Subject.event b) h =
    ap Subject.event (event_path-injective a b h)
stored_name-injective (Subject.event a) (Subject.action b) h = absurd (ground (arith, h))
stored_name-injective (Subject.event a) (Subject.notification (NotificationId.confirmation b_w b_e))
      h =
    absurd (ground (arith, h))
stored_name-injective (Subject.event a) (Subject.notification (NotificationId.reaction_job b_t)) h =
    absurd (ground (arith, h))
stored_name-injective (Subject.action a) (Subject.thread b) h = absurd (ground (arith, h))
stored_name-injective (Subject.action a) (Subject.upload b) h = absurd (ground (arith, h))
stored_name-injective (Subject.action a) (Subject.event b) h = absurd (ground (arith, h))
stored_name-injective (Subject.action a) (Subject.action b) h =
    ap Subject.action (action_path-injective a b h)
stored_name-injective (Subject.action a)
      (Subject.notification (NotificationId.confirmation b_w b_e)) h =
    absurd (ground (arith, h))
stored_name-injective (Subject.action a) (Subject.notification (NotificationId.reaction_job b_t))
      h =
    absurd (ground (arith, h))
stored_name-injective (Subject.notification (NotificationId.confirmation a_w a_e))
      (Subject.thread b) h =
    absurd (ground (arith, h))
stored_name-injective (Subject.notification (NotificationId.reaction_job a_t)) (Subject.thread b)
      h =
    absurd (ground (arith, h))
stored_name-injective (Subject.notification (NotificationId.confirmation a_w a_e))
      (Subject.upload b) h =
    absurd (ground (arith, h))
stored_name-injective (Subject.notification (NotificationId.reaction_job a_t)) (Subject.upload b)
      h =
    absurd (ground (arith, h))
stored_name-injective (Subject.notification (NotificationId.confirmation a_w a_e)) (Subject.event b)
      h =
    absurd (ground (arith, h))
stored_name-injective (Subject.notification (NotificationId.reaction_job a_t)) (Subject.event b) h =
    absurd (ground (arith, h))
stored_name-injective (Subject.notification (NotificationId.confirmation a_w a_e))
      (Subject.action b) h =
    absurd (ground (arith, h))
stored_name-injective (Subject.notification (NotificationId.reaction_job a_t)) (Subject.action b)
      h =
    absurd (ground (arith, h))
stored_name-injective (Subject.notification a) (Subject.notification b) h =
    ap Subject.notification (notification_path-injective a b h)
