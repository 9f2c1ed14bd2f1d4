-- ===== src/Store/Records/Confirmations.antt =====
-- internal/store/records.go: the confirmation that `Record` puts into the outbox.
use slackbot_hubspot.Base.{◌≡◌, ◌≢◌, ◌↔◌, true, false, Option, some, [], ◌⊎◌}
use slackbot_hubspot.Domain.{zero_time, Command, Kind, Event, Outcome}
use slackbot_hubspot.Store.Keys.{notification_keyed}
use slackbot_hubspot.Store.Rendering.{Rendering}
use slackbot_hubspot.Store.Database.{NotificationRecord}
use slackbot_hubspot.Store.Records.Decisions.{Decision}

-- A command that changes whether or when the thread is synchronized.
abbrev IsTracking : Command → Type 0
IsTracking c = (c ≡ Command.sync) ⊎ (c ≡ Command.untrack) ⊎ (c ≡ Command.resume)

-- The thread was linked just now, or a command has changed its tracking.
pub ChangesTracking : Event → Decision → Type 0
ChangesTracking e d =
    (d.outcome ≡ Outcome.linked)
    ⊎ ((d.changed ≡ true) × (e.kind ≡ Kind.command) × IsTracking e.command)

-- What the outbox holds for the event, before and after.
pub data IsConfirmed (e : Event) (d : Decision) (before : Option NotificationRecord)
    : Option NotificationRecord → Type 0 where
  silent : d.reply ≡ [] → ¬ ChangesTracking e d → IsConfirmed e d before before
  posted :
      (n : NotificationRecord)
      → (d.reply ≢ []) ⊎ ChangesTracking e d
      → n.text ≡ d.reply
      → n.blocks ≡ d.blocks
      → n.key ≡ e.key
      → (n.update_tracking ≡ true) ↔ ChangesTracking e d
      → (n.reactions ≡ false) × (n.completed ≡ false) × (n.permanent ≡ false)
      → (n.lease_token ≡ "")
        × (n.lease_expires ≡ zero_time)
        × (n.next_attempt ≡ zero_time)
        × (n.attempts ≡ 0)
      → IsConfirmed e d before (some n)
