-- ===== src/Slack.antt =====
-- internal/slack: the client of Slack.
pub mod Calls
pub mod Pages
