-- ===== src/Store/Outbox/Coalescing.antt =====
-- internal/store/notifications.go: requests for a thread's reactions coalesce.
use slackbot_hubspot.Store.Keys.{notification_keyed}
