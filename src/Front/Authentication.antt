-- ===== src/Front/Authentication.antt =====
-- internal/httpapi/server.go, `authenticateSlack`: the signature over the exact bytes of a request.
-- `parse_int` is `strconv.ParseInt(_, 10, 64)` and `sign` the hexadecimal HMAC-SHA-256 under a
-- secret. `time.Time` counts nanoseconds from the year 1, `time.Unix` seconds from 1970.
use slackbot_hubspot.Base.{
  ℕ, suc, ◌+◌, ◌*◌, ◌<◌, String, Bool, true, false, ◌&&◌, Option, none, some, ◌++◌, leb, is_set,
  if◌then◌else◌, ◌≡◌, arith, Option-cases, inl, inr,
}
use slackbot_hubspot.Base.Bytes.{bytes_beq, bytes}
use slackbot_hubspot.Domain.{Time, Bytes, ℤ, pos, negsuc}

-- What `io.ReadAll` makes of the bounded body.
pub data Body : Type 0 where
  read : Bytes → Body
  too_large broken : Body

-- The request goes on, or is answered with a status.
pub data Access : Type 0 where
  admitted : Access
  denied : ℕ → Access

abbrev pub second : ℕ
second = 1000000000

-- 1970 in seconds after the zero time.
abbrev pub unix_epoch : ℕ
unix_epoch = 62135596800

-- `age >= -5*time.Minute && age <= 5*time.Minute`, by the sides of the difference.
unfoldable pub is_recent : Time → ℤ → Bool
is_recent now (pos s) =
    leb now ((unix_epoch + s + 300) * second)
    && leb ((unix_epoch + s) * second) (now + 300 * second)
is_recent now (negsuc n) =
    leb (now + suc n * second) ((unix_epoch + 300) * second)
    && leb (unix_epoch * second) (now + (300 + suc n) * second)

module _ (parse_int : String → Option ℤ) (sign : String → Bytes → Bytes) where
  abbrev pub signature_of : String → String → Bytes → Bytes
  signature_of secret timestamp body =
      bytes "v0=" ++ sign secret (bytes "v0:" ++ bytes timestamp ++ bytes ":" ++ body)

  abbrev pub in_time : Time → Option ℤ → Bool
  in_time now none = false
  in_time now (some unix) = is_recent now unix

  -- `authenticateSlack`
  unfoldable pub authenticate_slack : String → Time → String → Bytes → Body → Access
  authenticate_slack secret now timestamp signature too_large = denied 413
  authenticate_slack secret now timestamp signature broken = denied 400
  authenticate_slack secret now timestamp signature (read body) =
      if is_set secret
        && in_time now (parse_int timestamp)
        && bytes_beq (signature_of secret timestamp body) signature
      then admitted
      else denied 401

  recent_once :
      (now later : Time) (unix : ℤ)
      → is_recent now unix ≡ true
      → now + 600 * second < later
      → is_recent later unix ≡ false
  unfolding is_recent
  recent_once now later (pos s) h k = ground arith
  recent_once now later (negsuc n) h k = ground arith

  -- A request that was admitted, sent again unchanged more than ten minutes later, is refused as
  -- unauthorized.
  pub replay_refused :
      (secret timestamp : String) (now later : Time) (signature : Bytes) (body : Body)
      → authenticate_slack secret now timestamp signature body ≡ admitted
      → now + 600 * second < later
      → authenticate_slack secret later timestamp signature body ≡ denied 401
  unfolding authenticate_slack
  replay_refused secret timestamp now later signature too_large h k = absurd (cc h)
  replay_refused secret timestamp now later signature broken h k = absurd (cc h)
  replay_refused secret timestamp now later signature (read body) h k =
      elim (Option-cases (parse_int timestamp)) [
        | inl bad ↦ absurd (ground arith)
        | inr (unix, good) ↦ let old = recent_once now later unix in ground arith
      ]
