-- ===== src/Store.antt =====
-- internal/store: durable coordination over a transactional table.
pub mod Keys
pub mod Timestamps
pub mod Database
pub mod Summaries
pub mod Outbox
pub mod Rendering
pub mod Records
pub mod Work
pub mod Threads
pub mod Notifications
pub mod Uploads
pub mod System
