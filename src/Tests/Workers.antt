-- ===== src/Tests/Workers.antt =====
-- A worker at the end of its work, and the markers that it keeps.
use slackbot_hubspot.Base.{
  refl, ◌≡◌, ◌≤◌, ◌+◌, ◌*◌, ◌^◌, ◌-◌, ◌/◌, min, max, true, none, [], ◌∷◌, arith, Bool,
}
use slackbot_hubspot.Domain.{pos}
use slackbot_hubspot.Domain.Remote.{Message, Fault, remote, answered}
use slackbot_hubspot.Store.Keys.{thread_keyed}
use slackbot_hubspot.Store.Records.Decisions.{linked_thread}
use slackbot_hubspot.Store.Work.{claimed_thread, claimed_lease, completed_thread}
use slackbot_hubspot.Store.Database.{Db, empty_db, put_thread}
use slackbot_hubspot.Worker.Policy.{Options, backoff, doubled, patient, failure, retryable}
use slackbot_hubspot.Worker.Policy.Backoff.{backoff_lem, failure_waits}
use slackbot_hubspot.Worker.Delivery.{Draws}
use slackbot_hubspot.Worker.Reactions.{
  Markers, ReactionTarget, adds, removes, present, has_target, desired, calls, synced_ts,
  target_beq, Round,
}
use slackbot_hubspot.Worker.Reactions.Settling.{marked_after, calls_settle}
use slackbot_hubspot.Tests.Samples.{key, running, synced}

abbrev options : Options
options = record { backoff_base = 1000; backoff_max = 300000; max_attempts = 8 }

backoff_lem_example : backoff options 3 ≡ min (1000 * 2 ^ (3 - 1)) 300000
backoff_lem_example = backoff_lem options 3

abbrev busy_fault : Fault
busy_fault =
    remote
      (record { code = b'r' ∷ []; retry_after = pos 9000; service = b's' ∷ []; temporary = true })

failure_waits_example :
    (100 + backoff options 3 / 2 ≤ (failure options busy_fault 3 7 100).next_attempt)
    × (100 + patient busy_fault 0 ≤ (failure options busy_fault 3 7 100).next_attempt)
    × ((failure options busy_fault 3 7 100).next_attempt ≤ 100 + max 300000 (patient busy_fault 0))
failure_waits_example =
    failure_waits options busy_fault 3 7 100 (unfold backoff doubled in omega arith)
      (unfold backoff doubled in omega arith) (unfold failure retryable in refl)

abbrev draws : Draws
draws = record { token = "r1"; jitter = 7; noted = 215; now = 220 }

abbrev running_db : Db
running_db = put_thread empty_db key running

abbrev late : Draws
late = record { token = "r1"; jitter = 7; noted = 265; now = 270 }

abbrev markers : Markers
markers = record { failure_reaction = "x"; success_reaction = "ok"; tracking_reaction = "eyes" }

abbrev all_eligible : Message → Bool
all_eligible m = true

-- The root of the thread, with a failure marker that is out of date.
abbrev root : Message
root = record {
  bot_id = "";
  bot_reactions = "x" ∷ [];
  files = [];
  permalink = "";
  sender_name = "";
  subtype = "";
  text = "";
  thread_ts = "";
  timestamp = "1.000001";
  user_id = "U1";
}

abbrev success : ReactionTarget
success = record { timestamp = "1.000001"; name = "ok" }

abbrev tracking : ReactionTarget
tracking = record { timestamp = "1.000001"; name = "eyes" }

abbrev failing : ReactionTarget
failing = record { timestamp = "1.000001"; name = "x" }

-- The synced thread loses the failure marker, and gets the two others.
root-calls :
    calls all_eligible markers key synced (root ∷ [])
    ≡ removes failing ∷ adds success ∷ adds tracking ∷ []
unfolding calls desired synced_ts present target_beq completed_thread claimed_lease claimed_thread
    linked_thread
root-calls = refl

calls_settle_example :
    marked_after
      (calls all_eligible markers key synced (root ∷ []))
      success
      (has_target success (present (root ∷ [])))
    ≡ desired all_eligible markers key synced (root ∷ []) success
calls_settle_example = calls_settle all_eligible markers key synced (root ∷ []) success

empty-settled :
    (t : ReactionTarget) → has_target t (present []) ≡ desired all_eligible markers key synced [] t
unfolding desired present
empty-settled t = ground arith

abbrev round : Round
round = record {
  stopped = none;
  before = answered synced;
  history = answered (root ∷ []);
  failing = λ c. none;
  current = answered synced;
}
