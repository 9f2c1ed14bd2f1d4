-- ===== src/Store/Rendering.antt =====
-- What the store asks of internal/render: the replies that it composes itself. They are never
-- empty, since an empty reply is not posted.
use slackbot_hubspot.Base.{◌≡◌, String, Bool, false, List}
use slackbot_hubspot.Domain.{Bytes, is_empty, Time, Thread, SlackBlock}

pub record Rendering : Type 0 where
  pub help : String → Bool → Bytes × List SlackBlock
  pub status : Thread → Time → Bytes × List SlackBlock
  pub help_nonempty : (bot : String) (invalid : Bool) → is_empty (help bot invalid).0 ≡ false
  pub status_nonempty : (thread : Thread) (now : Time) → is_empty (status thread now).0 ≡ false
