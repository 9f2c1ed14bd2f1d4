-- ===== src/Tests.antt =====
-- Sample data, and runs of the model on it.
pub mod Samples
mod Histories
mod Events
mod Leases
mod Jobs
mod Front
mod Workers
mod Synchronizing
mod Rendering
mod Slack
mod Hubspot
mod Transcripts
mod Drivers
