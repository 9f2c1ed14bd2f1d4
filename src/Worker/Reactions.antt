-- ===== src/Worker/Reactions.antt =====
-- internal/worker/reactions.go, `reconcileReactions`: the markers that the bot keeps on the messages
-- of a thread. `eligible` is `render.Eligible` for the configured bot and account.
pub mod Settling
pub mod Rounds
use slackbot_hubspot.Base.{
  String, Bool, true, false, not, ◌&&◌, ◌||◌, List, [], ◌∷◌, ◌++◌, ◌==◌, is_set, ◌≡◌, ◌↔◌, arith,
  eq_iff, nat_beq, if◌then◌else◌, Option, none, some,
}
use slackbot_hubspot.Base.Bytes.{bytes_beq, bytes, bytes_ltb}
use slackbot_hubspot.Domain.{
  Bytes, is_empty, is_zero_time, is_pending, is_running, ThreadKey, Thread,
}
use slackbot_hubspot.Domain.Remote.{Message, Fault, Answer, answered, failed}

-- `reactionTarget`
pub record ReactionTarget : Type 0 where
  pub timestamp : String
  pub name : String

unfoldable pub target_beq : ReactionTarget → ReactionTarget → Bool
target_beq a b = a.timestamp == b.timestamp && a.name == b.name

pub target_beq_iff : (a b : ReactionTarget) → (target_beq a b ≡ true) ↔ (a ≡ b)
unfolding target_beq
target_beq_iff a b = ground (arith, eq_iff a.timestamp b.timestamp, eq_iff a.name b.name)

-- A key that stands in a map with the value true.
abbrev pub has_target : ReactionTarget → List ReactionTarget → Bool
has_target t [] = false
has_target t (u ∷ us) = target_beq u t || has_target t us

-- The options that are read here.
pub record Markers : Type 0 where
  pub failure_reaction : String
  pub success_reaction : String
  pub tracking_reaction : String

abbrev pub has_text : String → List String → Bool
has_text s [] = false
has_text s (x ∷ xs) = x == s || has_text s xs

-- A message stands at the timestamp.
abbrev pub has_message : String → List Message → Bool
has_message ts [] = false
has_message ts (m ∷ ms) = m.timestamp == ts || has_message ts ms

-- `present`, as the list of its keys.
abbrev pub marks : String → List String → List ReactionTarget
marks ts [] = []
marks ts (name ∷ names) = record { timestamp = ts; name = name } ∷ marks ts names

unfoldable pub present : List Message → List ReactionTarget
present [] = []
present (m ∷ ms) = marks m.timestamp m.bot_reactions ++ present ms

-- A call of Slack.
pub data Call : Type 0 where
  removes adds : ReactionTarget → Call

-- The loop that clears what is not desired.
abbrev pub removals : (ReactionTarget → Bool) → List ReactionTarget → List Call
removals desired [] = []
removals desired (t ∷ ts) =
    if not (desired t) then removes t ∷ removals desired ts else removals desired ts

-- The loop that adds what is missing; `present` grows by what it adds.
abbrev pub additions :
    (ReactionTarget → Bool) → List ReactionTarget → List ReactionTarget → List Call
additions desired there [] = []
additions desired there (t ∷ ts) =
    let skipping = additions desired there ts in
    let adding = additions desired (t ∷ there) ts in
    if desired t && not (has_target t there) then adds t ∷ adding else skipping

module _ (eligible : Message → Bool) (o : Markers) where
  -- The newest message with a success marker: what older records have for a checkpoint.
  abbrev pub newest_success : String → List Message → String
  newest_success ts [] = ts
  newest_success ts (m ∷ ms) =
      newest_success
        (if bytes_ltb (bytes ts) (bytes m.timestamp)
            && has_text o.success_reaction m.bot_reactions
            && eligible m
          then m.timestamp
          else ts)
        ms

  unfoldable pub synced_ts : Thread → List Message → String
  synced_ts thread messages =
      if thread.last_synced_message_ts == "" && not (is_zero_time thread.last_success)
      then newest_success thread.last_synced_message_ts messages
      else thread.last_synced_message_ts

  abbrev pub success_target : Thread → List Message → ReactionTarget
  success_target thread messages = record {
    timestamp = synced_ts thread messages;
    name = o.success_reaction;
  }

  abbrev pub tracking_target : ThreadKey → ReactionTarget
  tracking_target key = record { timestamp = key.thread_ts; name = o.tracking_reaction }

  abbrev pub failure_target : Thread → ReactionTarget
  failure_target thread = record { timestamp = thread.last_message_ts; name = o.failure_reaction }

  -- The condition of `keep`.
  abbrev pub keeps : List Message → ReactionTarget → Bool
  keeps messages t = is_set t.name && is_set t.timestamp && has_message t.timestamp messages

  abbrev pub shows_failure : Thread → Bool
  shows_failure thread =
      not (is_empty thread.current_error)
      && not (bytes_beq thread.current_error (bytes "operation cancelled"))

  -- `desired[target]`
  unfoldable pub desired : ThreadKey → Thread → List Message → ReactionTarget → Bool
  desired key thread messages t =
      let success = success_target thread messages in
      let tracking = tracking_target key in
      let failure = failure_target thread in
      (target_beq success t && keeps messages success)
      || (thread.active && target_beq tracking t && keeps messages tracking)
      || (shows_failure thread && target_beq failure t && keeps messages failure)

  -- The calls of one round of the loop, in their order.
  unfoldable pub calls : ThreadKey → Thread → List Message → List Call
  calls key thread messages =
      removals (desired key thread messages) (present messages)
      ++ additions (desired key thread messages) (present messages)
          (success_target thread messages ∷ tracking_target key ∷ failure_target thread ∷ [])

-- What one round of the loop meets: whether the context is done, what `Get` and `Slack.Thread`
-- answer, which call of Slack fails, and what the second `Get` answers.
pub record Round : Type 0 where
  pub stopped : Option Fault
  pub before : Answer Thread
  pub history : Answer (List Message)
  pub failing : Call → Option Fault
  pub current : Answer Thread

-- The calls that are made up to the first that fails, and its fault.
unfoldable pub served : (Call → Option Fault) → List Call → List Call × Option Fault
served failing [] = ([], none)
served failing (c ∷ cs) =
    let rest = served failing cs in
    elim (failing c) [ none ↦ (c ∷ rest.0, rest.1) | some e ↦ (c ∷ [], some e) ]

-- The end of a round: the loop ends, with a fault or without, or goes round again.
pub data Turn : Type 0 where
  done again : Turn
  fails : Fault → Turn

-- Core work is under way, which enqueues an update of its own.
abbrev pub is_busy : Thread → Bool
is_busy thread = thread.active && (is_pending thread.state || is_running thread.state)

abbrev pub same_flag : Bool → Bool → Bool
same_flag true b = b
same_flag false b = not b

-- Nothing that the markers depend on has changed.
unfoldable pub is_unchanged : Thread → Thread → Bool
is_unchanged current thread =
    same_flag current.active thread.active
    && current.last_synced_message_ts == thread.last_synced_message_ts
    && current.last_message_ts == thread.last_message_ts
    && bytes_beq current.current_error thread.current_error

abbrev pub end_of_round : Thread → Answer Thread → Turn
end_of_round thread (failed e) = fails e
end_of_round thread (answered current) = if is_unchanged current thread then done else again

abbrev pub end_of_calls : Thread → Answer Thread → List Call × Option Fault → List Call × Turn
end_of_calls thread current (cs, some e) = (cs, fails e)
end_of_calls thread current (cs, none) = (cs, end_of_round thread current)

-- After a round, `rest` is what the next ones do.
abbrev pub go_on : List Call × Turn → List Call × Turn → List Call × Turn
go_on (cs, again) rest = (cs ++ rest.0, rest.1)
go_on (cs, done) rest = (cs, done)
go_on (cs, fails e) rest = (cs, fails e)

module _ (eligible : Message → Bool) (o : Markers) (key : ThreadKey) where
  abbrev pub mark : Thread → Round → Answer (List Message) → List Call × Turn
  mark thread x (failed e) = ([], fails e)
  mark thread x (answered messages) =
      end_of_calls thread x.current (served x.failing (calls eligible o key thread messages))

  abbrev pub turn_read : Round → Answer Thread → List Call × Turn
  turn_read x (failed e) = ([], fails e)
  turn_read x (answered thread) = if is_busy thread then ([], done) else mark thread x x.history

  -- One round of the loop.
  unfoldable pub turn : Round → List Call × Turn
  turn x = elim x.stopped [ some e ↦ ([], fails e) | none ↦ turn_read x x.before ]

  -- `reconcileReactions`, over the rounds that it meets; `again` is left where they are used up.
  unfoldable pub reconcile_reactions : List Round → List Call × Turn
  unfolding turn
  reconcile_reactions [] = ([], again)
  reconcile_reactions (x ∷ xs) = go_on (turn x) (reconcile_reactions xs)
