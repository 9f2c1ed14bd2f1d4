-- ===== src/Render.antt =====
-- internal/render: the requests that a message makes, and the texts of replies and notes.
pub mod Tokens
pub mod Parsing
pub mod Summary
pub mod Blocks
pub mod Status
pub mod Markup
pub mod Transcript
