-- ===== src/Hubspot.antt =====
-- internal/hubspot: the client of HubSpot.
pub mod Calls
pub mod Notes
pub mod Tickets
