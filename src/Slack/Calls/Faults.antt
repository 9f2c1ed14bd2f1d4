-- ===== src/Slack/Calls/Faults.antt =====
-- internal/slack/client.go: which faults of Slack are tried again, and when.
use slackbot_hubspot.Base.{
  ◌≡◌, ◌⊎◌, inl, inr, refl, subst, eq_iff, String, Bool, true, false, ◌||◌, Option, none, some, ltb,
  leb, arith, if_rule, Bool-cases,
}
use slackbot_hubspot.Base.Bytes.{bytes}
use slackbot_hubspot.Domain.{ℤ}
use slackbot_hubspot.Domain.Remote.{RemoteError, Fault, remote, canceled, Answer, answered, failed}
use slackbot_hubspot.Worker.Policy.{retryable}
use slackbot_hubspot.Slack.Calls.{
  Body, Exchange, unsent, lost, responded, unreadable, undecoded, envelope, slack_error,
  is_limited_body, api_code, call, or_canceled, read_body, response_error, api_error, is_limited,
}

-- A fault of a call: the context has ended, or it is an error of Slack's service.
abbrev pub IsSlackFault : Bool → Fault → Type 0
IsSlackFault over f =
    ((over ≡ true) × (f ≡ canceled))
    ⊎ ((e : RemoteError) × (f ≡ remote e) × (e.service ≡ bytes "slack"))

abbrev OfFault : {A : Type 0} → (Fault → Type 0) → Answer A → Type 0
OfFault P (answered a) = Unit {0}
OfFault P (failed e) = P e

slack_error-IsSlackFault :
    (over : Bool) (code : String) (temporary : Bool)
    → IsSlackFault over (slack_error code temporary)
slack_error-IsSlackFault over code temporary = inr (_, refl, refl)

or_canceled-IsSlackFault :
    (A : Type 0) (over : Bool) (code : String)
    → OfFault (IsSlackFault over) (or_canceled {A = A} over (slack_error code true))
or_canceled-IsSlackFault A true code = inl (refl, refl)
or_canceled-IsSlackFault A false code = slack_error-IsSlackFault false code true

read_body-IsSlackFault :
    {A : Type 0} (over : Bool) (wait : Option ℤ) (b : Body A)
    → OfFault (IsSlackFault over) (read_body over wait b)
unfolding api_error
read_body-IsSlackFault {A = A} over wait unreadable = or_canceled-IsSlackFault A over "read_error"
read_body-IsSlackFault {A = A} over wait undecoded =
    slack_error-IsSlackFault over "invalid_response" true
read_body-IsSlackFault {A = A} over wait (envelope true error none) =
    slack_error-IsSlackFault over "invalid_response" true
read_body-IsSlackFault {A = A} over wait (envelope true error (some a)) = tt
read_body-IsSlackFault {A = A} over wait (envelope false error output) = inr (_, refl, refl)

call-IsSlackFault :
    {A : Type 0} (over : Bool) (x : Exchange A) → OfFault (IsSlackFault over) (call over x)
unfolding call response_error
call-IsSlackFault {A = A} over unsent = slack_error-IsSlackFault over "invalid_request" false
call-IsSlackFault {A = A} over lost = or_canceled-IsSlackFault A over "transport_error"
call-IsSlackFault {A = A} over (responded r) =
    if_rule (OfFault (IsSlackFault over)) (ltb r.status 200 || leb 300 r.status) _ _
      (λ bad. inr (_, refl, refl)) (λ good. read_body-IsSlackFault over r.retry_after r.body)

limited_body-temporary :
    {A : Type 0} (over : Bool) (wait : Option ℤ) (b : Body A)
    → is_limited_body b ≡ true
    → (e : RemoteError) × (read_body over wait b ≡ failed (remote e)) × (e.temporary ≡ true)
unfolding api_error api_code
limited_body-temporary over wait unreadable h = ground (arith, h)
limited_body-temporary over wait undecoded h = ground (arith, h)
limited_body-temporary over wait (envelope ok error output) h =
    let named : error ≡ "ratelimited" = (eq_iff error "ratelimited").0 (ground (arith, h)) in
    let refused : ok ≡ false = ground (arith, h) in rw (refused, named) (_, refl, refl)

limited-retryable :
    {A : Type 0} (over : Bool) (x : Exchange A)
    → is_limited x ≡ true
    → (f : Fault) × (call over x ≡ failed f) × (retryable f ≡ true)
unfolding is_limited call response_error retryable
limited-retryable over unsent h = ground (arith, h)
limited-retryable over lost h = ground (arith, h)
limited-retryable over (responded r) h = elim (Bool-cases (ltb r.status 200 || leb 300 r.status)) [
  | inl bad ↦ (response_error r.status r.retry_after, rw bad refl, ground (arith, h, bad))
  | inr good ↦
      let limited = limited_body-temporary over r.retry_after r.body (ground (arith, h, good)) in
      (remote limited.0, rw good limited.1, limited.2)
]

-- A call that fails, fails because its context has ended, or with an error of Slack's service; and a
-- call that counts as limited in its rate fails with an error that is tried again.
pub faults_told :
    {A : Type 0} (over : Bool) (x : Exchange A)
    → ((f : Fault) → call over x ≡ failed f → IsSlackFault over f)
      × (is_limited x ≡ true → (f : Fault) × (call over x ≡ failed f) × (retryable f ≡ true))
faults_told over x = (
  (λ f e. subst (OfFault (IsSlackFault over)) e (call-IsSlackFault over x)),
  limited-retryable over x,
)
