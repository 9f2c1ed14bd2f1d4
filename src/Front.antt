-- ===== src/Front.antt =====
-- internal/httpapi: the events that Slack posts.
pub mod Authentication
pub mod Timestamps
pub mod Events
pub mod Handler
