-- ===== src/Worker/Reactions/Rounds.antt =====
-- internal/worker/reactions.go: what the loop of `reconcileReactions` ends with.
use slackbot_hubspot.Base.{◌≡◌, Bool, true, List}
use slackbot_hubspot.Domain.{ThreadKey, Thread}
use slackbot_hubspot.Domain.Remote.{Message, answered}
use slackbot_hubspot.Worker.Reactions.{
  ReactionTarget, Markers, Round, is_busy, is_unchanged, turn, calls, present, has_target, desired,
}
use slackbot_hubspot.Worker.Reactions.Settling.{marked_after}

-- The round read a thread with work under way; or it made all its calls, after which the markers
-- are those that the thread wants, and the thread had not changed when it was read again.
pub data Settles (eligible : Message → Bool) (o : Markers) (key : ThreadKey) (x : Round)
    : Type 0 where
  busy :
      (thread : Thread)
      → x.before ≡ answered thread
      → is_busy thread ≡ true
      → Settles eligible o key x
  marked :
      (thread current : Thread) (messages : List Message)
      → x.before ≡ answered thread
      → x.history ≡ answered messages
      → (turn eligible o key x).0 ≡ calls eligible o key thread messages
      → ((t : ReactionTarget)
          → marked_after (turn eligible o key x).0 t (has_target t (present messages))
            ≡ desired eligible o key thread messages t)
      → x.current ≡ answered current
      → is_unchanged current thread ≡ true
      → Settles eligible o key x
