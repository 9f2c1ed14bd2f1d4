-- ===== src/Store/Outbox.antt =====
-- internal/store/notifications.go, `queueReactions`: the reaction job that a thread's changes ask
-- for. The token of a new job, which `rand.Text` draws, is an argument.
pub mod Coalescing
use slackbot_hubspot.Base.{
  String, Bool, true, false, not, ◌&&◌, ◌||◌, List, [], ◌∷◌, ◌==◌, if◌then◌else◌,
}
use slackbot_hubspot.Domain.{zero_time, ThreadKey, NotificationId, key_beq}
use slackbot_hubspot.Backend.{scan}
use slackbot_hubspot.Store.Database.{Db, NotificationRecord, put_notification}

-- A reaction job of the thread that nobody holds.
unfoldable pub is_queued : ThreadKey → NotificationRecord → Bool
is_queued key r =
    r.reactions && key_beq r.key key && not r.completed && not r.permanent && r.lease_token == ""

abbrev pub has_queued : ThreadKey → List NotificationRecord → Bool
has_queued key [] = false
has_queued key (r ∷ rest) = is_queued key r || has_queued key rest

unfoldable pub reaction_record : String → ThreadKey → NotificationRecord
reaction_record token key = record {
  notification = record {
    blocks = [];
    attempts = 0;
    id = NotificationId.reaction_job token;
    key = key;
    lease_expires = zero_time;
    lease_token = "";
    reactions = true;
    text = [];
    update_tracking = false;
  };
  completed = false;
  next_attempt = zero_time;
  permanent = false;
}

unfoldable pub queue_reactions : String → ThreadKey → Db → Db
queue_reactions token key db =
    if has_queued key (scan db.notifications)
    then db
    else put_notification db (NotificationId.reaction_job token) (reaction_record token key)
