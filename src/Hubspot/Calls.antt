-- ===== src/Hubspot/Calls.antt =====
-- internal/hubspot/client.go, `request` and `json`: what an exchange with HubSpot comes to. What came
-- over the wire, and what the JSON decoder made of it, is an argument.
use slackbot_hubspot.Base.{
  ℕ, ◌*◌, ◌%◌, ◌^◌, String, Bool, true, false, ◌||◌, Option, none, some, ltb, leb, nat_beq,
  if◌then◌else◌,
}
use slackbot_hubspot.Base.Bytes.{bytes}
use slackbot_hubspot.Domain.{ℤ, pos}
use slackbot_hubspot.Domain.Remote.{Fault, remote, Answer, answered, failed}
use slackbot_hubspot.Slack.Calls.{or_canceled, signed}

-- The header `Retry-After`: a number of seconds, a date and the time that is left until it, or
-- neither.
pub data RetryAfter : Type 0 where
  seconds : ℤ → RetryAfter
  date : ℤ → RetryAfter
  no_delay : RetryAfter

pub record Response (A : Type 0) : Type 0 where
  pub status : ℕ
  pub retry_after : RetryAfter
  pub result : Option A

pub data Exchange (A : Type 0) : Type 0 where
  unsent lost : Exchange A
  responded : Response A → Exchange A

abbrev pub hubspot_error : String → Bool → Fault
hubspot_error code temporary = remote (record {
  code = bytes code;
  retry_after = pos 0;
  service = bytes "hubspot";
  temporary = temporary;
})

unfoldable pub status_code : ℕ → String
status_code status =
    if nat_beq status 400
    then "invalid_request"
    else if nat_beq status 401
    then "invalid_auth"
    else if nat_beq status 403
    then "missing_scope"
    else if nat_beq status 404
    then "not_found"
    else if nat_beq status 413
    then "too_large"
    else if nat_beq status 423
    then "locked"
    else if nat_beq status 429
    then "ratelimited"
    else "http_error"

-- The time to wait; the product of seconds wraps around.
unfoldable pub delay_of : RetryAfter → ℤ
delay_of (seconds (pos n)) = signed (n * 1000000000 % 2 ^ 64)
delay_of (date (pos n)) = pos n
delay_of _ = pos 0

unfoldable pub response_error : ℕ → RetryAfter → Fault
response_error status retry_after = remote (record {
  code = bytes (status_code status);
  retry_after = delay_of retry_after;
  service = bytes "hubspot";
  temporary = nat_beq status 408 || nat_beq status 423 || nat_beq status 429 || leb 500 status;
})

abbrev pub decoded : {A : Type 0} → Bool → Option A → Answer A
decoded over none = or_canceled over (hubspot_error "invalid_response" true)
decoded over (some a) = answered a

-- `request`; `over` tells that the context has ended.
unfoldable pub request : {A : Type 0} → Bool → Exchange A → Answer A
request over unsent = failed (hubspot_error "invalid_request" false)
request over lost = or_canceled over (hubspot_error "transport_error" true)
request over (responded r) =
    if ltb r.status 200 || leb 300 r.status
    then failed (response_error r.status r.retry_after)
    else decoded over r.result
