-- ===== src/Slack/Calls.antt =====
-- internal/slack/client.go, `call`, `responseError`, and the calls that change Slack: what an exchange
-- with Slack comes to. The exchange is an argument: what came over the wire, and what the JSON
-- decoder made of it.
pub mod Faults
use slackbot_hubspot.Base.{
  ℕ, ◌*◌, ◌-◌, ◌%◌, ◌^◌, String, Bool, true, false, not, ◌&&◌, ◌||◌, Option, none, some, List, [],
  ◌∷◌, ◌==◌, is_set, ltb, leb, nat_beq, if◌then◌else◌,
}
use slackbot_hubspot.Base.Bytes.{bytes_beq, bytes}
use slackbot_hubspot.Domain.{ℤ, pos, negsuc, Bytes}
use slackbot_hubspot.Domain.Remote.{
  RemoteError, Fault, remote, canceled, Answer, answered, failed, File,
}

-- The body of a response: it cannot be read, its envelope is not decoded, or it is, and then the
-- output is decoded from it or not.
pub data Body (A : Type 0) : Type 0 where
  unreadable undecoded : Body A
  envelope : (ok : Bool) → (error : String) → (output : Option A) → Body A

-- A response; `retry_after` are the seconds of its header, if they are a number.
pub record Response (A : Type 0) : Type 0 where
  pub status : ℕ
  pub retry_after : Option ℤ
  pub body : Body A

pub data Exchange (A : Type 0) : Type 0 where
  unsent lost : Exchange A
  responded : Response A → Exchange A

abbrev pub slack_error : String → Bool → Fault
slack_error code temporary = remote (record {
  code = bytes code;
  retry_after = pos 0;
  service = bytes "slack";
  temporary = temporary;
})

-- The signed value of a number of 64 bits.
abbrev pub signed : ℕ → ℤ
signed n = if ltb n (2 ^ 63) then pos n else negsuc (2 ^ 64 - 1 - n)

-- `time.Duration(seconds) * time.Second`, if the header has a positive number of seconds. The
-- product wraps around.
unfoldable pub delay_of : Option ℤ → ℤ
delay_of (some (pos n)) = signed (n * 1000000000 % 2 ^ 64)
delay_of _ = pos 0

unfoldable pub status_code : ℕ → String
status_code status =
    if nat_beq status 401
    then "invalid_auth"
    else if nat_beq status 403
    then "missing_scope"
    else if nat_beq status 404
    then "not_found"
    else if nat_beq status 429
    then "ratelimited"
    else "http_error"

-- `responseError`
unfoldable pub response_error : ℕ → Option ℤ → Fault
response_error status retry_after = remote (record {
  code = bytes (status_code status);
  retry_after = delay_of retry_after;
  service = bytes "slack";
  temporary = nat_beq status 429 || leb 500 status;
})

abbrev pub is_one_of : String → List String → Bool
is_one_of s [] = false
is_one_of s (t ∷ ts) = s == t || is_one_of s ts

-- The errors of Slack that keep their names.
abbrev pub known_errors : List String
known_errors =
    "already_reacted" ∷ "channel_not_found" ∷ "file_not_found" ∷ "invalid_auth"
    ∷ "message_not_found" ∷ "missing_scope" ∷ "no_reaction" ∷ "not_authed" ∷ "not_in_channel"
    ∷ "ratelimited" ∷ "request_timeout" ∷ "service_unavailable" ∷ "thread_not_found"
    ∷ "token_revoked" ∷ "user_not_found" ∷ "user_not_visible" ∷ []

unfoldable pub api_code : String → String
api_code error = if is_one_of error known_errors then error else "api_error"

unfoldable pub api_error : String → Option ℤ → Fault
api_error error retry_after = remote (record {
  code = bytes (api_code error);
  retry_after = delay_of retry_after;
  service = bytes "slack";
  temporary =
      is_one_of (api_code error) ("ratelimited" ∷ "request_timeout" ∷ "service_unavailable" ∷ []);
})

abbrev pub or_canceled : {A : Type 0} → Bool → Fault → Answer A
or_canceled over e = failed (if over then canceled else e)

abbrev pub decoded : {A : Type 0} → Option A → Answer A
decoded none = failed (slack_error "invalid_response" true)
decoded (some a) = answered a

abbrev pub read_body : {A : Type 0} → Bool → Option ℤ → Body A → Answer A
read_body over retry_after unreadable = or_canceled over (slack_error "read_error" true)
read_body over retry_after undecoded = failed (slack_error "invalid_response" true)
read_body over retry_after (envelope ok error output) =
    if ok then decoded output else failed (api_error error retry_after)

-- `call`, once its arguments are encoded; `over` tells that the context has ended.
unfoldable pub call : {A : Type 0} → Bool → Exchange A → Answer A
call over unsent = failed (slack_error "invalid_request" false)
call over lost = or_canceled over (slack_error "transport_error" true)
call over (responded r) =
    if ltb r.status 200 || leb 300 r.status
    then failed (response_error r.status r.retry_after)
    else read_body over r.retry_after r.body

-- Whether the metric of rate limits is counted.
abbrev pub is_limited_body : {A : Type 0} → Body A → Bool
is_limited_body (envelope ok error output) = not ok && error == "ratelimited"
is_limited_body _ = false

unfoldable pub is_limited : {A : Type 0} → Exchange A → Bool
is_limited (responded r) =
    if ltb r.status 200 || leb 300 r.status then nat_beq r.status 429 else is_limited_body r.body
is_limited _ = false

abbrev pub has_code : String → Fault → Bool
has_code code (remote e) = bytes_beq e.code (bytes code)
has_code code _ = false

-- What a change of Slack comes to, when some faults tell that it is there already.
abbrev pub unless_done : (Fault → Bool) → Answer (Unit {0}) → Option Fault
unless_done is_done (answered _) = none
unless_done is_done (failed e) = if is_done e then none else some e

-- `React`
unfoldable pub react : Bool → Exchange (Unit {0}) → Option Fault
react over x = unless_done (has_code "already_reacted") (call over x)

-- `RemoveReaction`
unfoldable pub remove_reaction : Bool → Exchange (Unit {0}) → Option Fault
remove_reaction over x =
    unless_done (λ e. has_code "no_reaction" e || has_code "message_not_found" e) (call over x)

abbrev pub check_file : String → Answer File → Answer File
check_file id (failed e) = failed e
check_file id (answered f) =
    if not (is_set f.id) || not (f.id == id)
    then failed (slack_error "invalid_response" true)
    else answered f

-- `File`
unfoldable pub file : String → Bool → Exchange File → Answer File
file id over x = check_file id (call over x)
