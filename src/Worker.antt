-- ===== src/Worker.antt =====
-- internal/worker: what a worker does with the work that it has claimed.
pub mod Policy
pub mod Reactions
pub mod Delivery
pub mod Attachments
pub mod Copying
pub mod Reconciling
