-- ===== src/Render/Transcript/Source.antt =====
-- internal/render and internal/hubspot: the note of a thread is known by its transcript.
use slackbot_hubspot.Domain.{Bytes}
