-- ===== src/Front/Handler/Replies.antt =====
-- internal/httpapi/server.go, `SlackEvent`: what Slack is told where the handler stops, and what it is
-- told of the recording.
use slackbot_hubspot.Base.{
  ◌≡◌, ◌⊎◌, refl, inl, inr, Bool, true, false, Option, none, some, not, ◌&&◌, ◌||◌, arith, ◌==◌,
  if_rule, is_set, subst,
}
use slackbot_hubspot.Domain.{Error, Result, ok, err, RecordResult}
use slackbot_hubspot.Front.Timestamps.{is_slack_timestamp}
use slackbot_hubspot.Front.Events.{
  Envelope, SlackEventBody, SlackMessage, Reply, Response, Observation, Stage, stops, goes_on,
  ◌>>=◌, require, Options, read_envelope, read_message, present_event, present_message,
  check_message, read_incoming, value, verify_url, reject, ignore, deny, is_plain, is_change,
  is_own, actor_of, thread_ts_of, incoming,
}

-- The message is counted as rejected or as ignored.
pub IsDeclined : Reply → Type 0
IsDeclined x = (x.observed ≡ some Observation.rejected) ⊎ (x.observed ≡ some Observation.ignored)

reject-IsDeclined : IsDeclined reject
unfolding IsDeclined
reject-IsDeclined = inl refl

ignore-IsDeclined : IsDeclined ignore
unfolding IsDeclined
ignore-IsDeclined = inr refl

deny-IsDeclined : IsDeclined deny
unfolding IsDeclined
deny-IsDeclined = inl refl

-- Where the handler stops, it declines.
data Declines {A : Type 0} : Stage A → Type 0 where
  declining : {x : Reply} → IsDeclined x → Declines (stops x)
  going : {a : A} → Declines (goes_on a)

bind-Declines :
    {A B : Type 0} (s : Stage A) (f : A → Stage B)
    → Declines s
    → ((a : A) → Declines (f a))
    → Declines (s >>= f)
bind-Declines (stops x) f (declining h) k = declining h
bind-Declines (goes_on a) f h k = k a

require-Declines : (b : Bool) (x : Reply) → IsDeclined x → Declines (require b x)
require-Declines true x h = going
require-Declines false x h = declining h

-- A check, and what stands behind it.
guard-Declines :
    {B : Type 0} (b : Bool) (x : Reply) (s : Stage B)
    → IsDeclined x
    → Declines s
    → Declines (require b x >>= λ _. s)
guard-Declines b x s h k = bind-Declines (require b x) (λ _. s) (require-Declines b x h) (λ _. k)

present_event-Declines : (e : Option SlackEventBody) → Declines (present_event e)
present_event-Declines none = declining reject-IsDeclined
present_event-Declines (some e) = going

present_message-Declines : (m : Option SlackMessage) → Declines (present_message m)
present_message-Declines none = declining reject-IsDeclined
present_message-Declines (some m) = going

read_envelope-Declines : (o : Options) (body : Envelope) → Declines (read_envelope o body)
unfolding read_envelope
read_envelope-Declines o body = guard-Declines _ reject _ reject-IsDeclined (
    bind-Declines (present_event body.event) _ (present_event-Declines body.event) (λ e.
      guard-Declines _ deny _ deny-IsDeclined (
        guard-Declines _ reject _ reject-IsDeclined (
          guard-Declines _ ignore _ ignore-IsDeclined
            (guard-Declines _ reject (goes_on e) reject-IsDeclined going)))))

read_message-Declines : (e : SlackEventBody) → Declines (read_message e)
unfolding read_message
read_message-Declines e =
    let subtype = value e.content.subtype in
    if_rule Declines (is_plain subtype) _ _ (λ _. going)
      (λ _.
        if_rule Declines (subtype == "message_changed") _ _
          (λ _. present_message-Declines e.message)
          (λ _.
            if_rule Declines (subtype == "message_deleted") _ _
              (λ _.
                bind-Declines (present_message e.previous_message) _
                  (present_message-Declines e.previous_message)
                  (λ m. guard-Declines _ reject (goes_on _) reject-IsDeclined going))
              (λ _. declining ignore-IsDeclined)))

check_message-Declines :
    (o : Options) (body : Envelope) (e : SlackEventBody) (m : SlackMessage)
    → Declines (check_message o body e m)
unfolding check_message
check_message-Declines o body e m = guard-Declines (not (is_own o m)) ignore _ ignore-IsDeclined (
    guard-Declines (is_plain (value m.subtype) || is_change (value m.subtype)) ignore _
      ignore-IsDeclined
      (guard-Declines (not (actor_of m == "") && is_slack_timestamp (value m.ts)) reject _
        reject-IsDeclined
        (guard-Declines (is_slack_timestamp (thread_ts_of m)) reject (goes_on (incoming body e m))
          reject-IsDeclined going)))

read_incoming-Declines : (o : Options) (body : Envelope) → Declines (read_incoming o body)
unfolding read_incoming
read_incoming-Declines o body =
    bind-Declines (read_envelope o body) _ (read_envelope-Declines o body) (λ e.
      bind-Declines (read_message e) _ (read_message-Declines e)
        (λ m. check_message-Declines o body e m))

stops-Declines : {A : Type 0} (x : Reply) → Declines {A = A} (stops x) → IsDeclined x
stops-Declines x (declining h) = h

-- Where the handler stops at an event, it declines.
pub stopped-IsDeclined :
    (o : Options) (body : Envelope) (x : Reply) → read_incoming o body ≡ stops x → IsDeclined x
stopped-IsDeclined o body x q = stops-Declines x (subst Declines q (read_incoming-Declines o body))

-- Slack's challenge is repeated, or declined.
pub data IsVerified (body : Envelope) : Reply → Type 0 where
  repeated :
      is_set (value body.challenge) ≡ true
      → IsVerified body
          (record { response = Response.acknowledged body.challenge; observed = none })
  declined : (x : Reply) → IsDeclined x → IsVerified body x

pub verify_url-IsVerified : (o : Options) (body : Envelope) → IsVerified body (verify_url o body)
unfolding verify_url
verify_url-IsVerified o body =
    if_rule (IsVerified body) (value body.challenge == "") _ _
      (λ _. declined reject reject-IsDeclined)
      (λ present.
        if_rule (IsVerified body) _ _ _ (λ _. declined deny deny-IsDeclined)
          (λ _. repeated (ground (arith, present))))

-- What Slack is told of a recording.
pub data IsTold : Result RecordResult → Reply → Type 0 where
  unrecorded :
      (e : Error) → IsTold (err e) (record { response = Response.unavailable; observed = none })
  again :
      (res : RecordResult)
      → res.duplicate ≡ true
      → IsTold
          (ok res)
          (record { response = Response.acknowledged none; observed = some Observation.duplicate })
  anew :
      (res : RecordResult)
      → res.duplicate ≡ false
      → IsTold
          (ok res)
          (record { response = Response.acknowledged none; observed = some Observation.accepted })
