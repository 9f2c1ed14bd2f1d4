-- ===== src/Config.antt =====
-- internal/config/config.go, `Load`: the checks of the settings, once they are decoded. The answers of
-- `mime.ParseMediaType` and `strconv.ParseUint` are arguments. A setting is the number that was
-- decoded, and a duration a number of nanoseconds.
pub mod Settings
use slackbot_hubspot.Base.{
  ℕ, ◌*◌, ◌^◌, String, Bool, true, false, not, ◌&&◌, ◌||◌, Option, none, some, List, [], ◌∷◌, ◌==◌,
  is_set, ltb, leb, nat_beq, if◌then◌else◌,
}
use slackbot_hubspot.Base.Texts.{trim_space, contains, plus}
use slackbot_hubspot.Domain.{
  ℤ, pos, negsuc, is_nonpositive, Error, lease_lost, not_found, no_work, invalid, Result, ok, err,
  ◌>>=◌,
}
use slackbot_hubspot.Render.Summary.{SummaryPart, compile_summary}

pub record ServerConfig : Type 0 where
  pub max_body_bytes : ℤ
  pub port : ℤ
  pub read_header_timeout : ℤ
  pub request_timeout : ℤ

pub record SlackConfig : Type 0 where
  pub bot_token : String
  pub bot_user_id : String
  pub failure_reaction : String
  pub history_token : String
  pub signing_secret : String
  pub success_reaction : String
  pub tracking_reaction : String
  pub workspace_id : String

pub record SyncConfig : Type 0 where
  pub allowed_mime_types : List String
  pub attachments : Bool
  pub max_attachment_bytes : ℤ
  pub temp_dir : String

pub record WorkerConfig : Type 0 where
  pub backoff_base : ℤ
  pub backoff_max : ℤ
  pub coalesce_delay : ℤ
  pub concurrency : ℤ
  pub grace_period : ℤ
  pub lease_duration : ℤ
  pub max_attempts : ℤ
  pub poll_interval : ℤ
  pub replicas : ℤ

pub record Config : Type 0 where
  pub access_token : String
  pub account_id : String
  pub driver : String
  pub server : ServerConfig
  pub slack : SlackConfig
  pub summary_template : String
  pub sync : SyncConfig
  pub worker : WorkerConfig

-- `a < b`
unfoldable pub less : ℤ → ℤ → Bool
less (pos a) (pos b) = ltb a b
less (pos a) (negsuc b) = false
less (negsuc a) (pos b) = true
less (negsuc a) (negsuc b) = ltb b a

-- A media type without its parameters, and whether there were any.
pub record MediaType : Type 0 where
  pub name : String
  pub has_parameters : Bool

abbrev pub three_seconds : ℤ
three_seconds = pos 3000000000

-- An error's text after the name of what it is about.
abbrev pub in_section : {A : Type 0} → String → Result A → Result A
in_section name (ok a) = ok a
in_section name (err (invalid message)) = err (invalid (plus name message))
in_section name (err lease_lost) = err lease_lost
in_section name (err not_found) = err not_found
in_section name (err no_work) = err no_work

abbrev pub refuse_if : Bool → String → Result (Unit {0})
refuse_if bad message = if bad then err (invalid message) else ok tt

unfoldable pub check_server : ServerConfig → Result (Unit {0})
check_server s = do
  _ ←
      refuse_if
        (less s.port (pos 1)
          || less (pos 65535) s.port
          || less s.max_body_bytes (pos 1024)
          || less (pos 16777216) s.max_body_bytes)
        "server port must be 1–65535 and max_body_bytes must be 1024–16777216"
  refuse_if
      (is_nonpositive s.read_header_timeout
        || is_nonpositive s.request_timeout
        || not (less s.request_timeout three_seconds))
      "server timeouts must be positive and request_timeout must be below 3s"

unfoldable pub check_identity : (String → Bool) → Config → Result (Unit {0})
check_identity is_uint c = do
  _ ←
      refuse_if
        (not (
          is_set c.slack.bot_token
          && is_set c.slack.bot_user_id
          && is_set c.slack.signing_secret
          && is_set c.slack.workspace_id
          && is_set c.access_token
          && is_set c.account_id))
        "Slack bot token, bot user ID, signing secret, workspace ID, HubSpot access token, and account ID are required"
  _ ←
      refuse_if
        (is_set c.slack.tracking_reaction
          && (c.slack.tracking_reaction == c.slack.success_reaction
              || c.slack.tracking_reaction == c.slack.failure_reaction))
        "slack tracking_reaction must differ from success_reaction and failure_reaction"
  refuse_if (not (is_uint c.account_id)) "hubspot account_id must be numeric"

abbrev pub is_bad_worker : WorkerConfig → Bool
is_bad_worker w =
    is_nonpositive w.backoff_base
    || less w.backoff_max w.backoff_base
    || less w.coalesce_delay (pos 0)
    || less w.concurrency (pos 1)
    || is_nonpositive w.grace_period
    || less w.lease_duration three_seconds
    || less w.max_attempts (pos 1)
    || is_nonpositive w.poll_interval
    || less w.replicas (pos 1)

unfoldable pub check_worker : String → WorkerConfig → Result (Unit {0})
check_worker driver w = do
  _ ←
      refuse_if (is_bad_worker w)
        "invalid worker settings: durations, concurrency, attempts, and replicas must be positive; lease_duration must be at least 3s; backoff_max must be at least backoff_base"
  refuse_if (driver == "sqlite" && (less w.replicas (pos 1) || less (pos 1) w.replicas))
      "SQLite requires exactly one application replica"

abbrev pub is_none_listed : List String → Bool
is_none_listed [] = true
is_none_listed (s ∷ ss) = false

unfoldable pub check_sync : SyncConfig → Result (Unit {0})
check_sync s = do
  _ ←
      refuse_if
        (is_nonpositive s.max_attachment_bytes
          || less (pos (2 ^ 30)) s.max_attachment_bytes
          || not (is_set s.temp_dir))
        "sync max_attachment_bytes must be 1–1073741824 and temp_dir must be set"
  refuse_if (s.attachments && is_none_listed s.allowed_mime_types)
      "sync allowed_mime_types is required when attachments are enabled"

abbrev pub media_name : Option MediaType → Result String
media_name none = err (invalid "sync allowed_mime_types must contain explicit MIME types")
media_name (some m) =
    if not (contains "/" m.name) || m.has_parameters || contains "*" m.name
    then err (invalid "sync allowed_mime_types must contain explicit MIME types")
    else ok m.name

module _ (media : String → Option MediaType) (is_uint : String → Bool) where
  -- The media types as they are compared later.
  unfoldable pub media_names : List String → Result (List String)
  media_names [] = ok []
  media_names (s ∷ ss) = do name ← media_name (media s); names ← media_names ss; ok (name ∷ names)

  -- The checks of `Load`, and the configuration that it returns.
  unfoldable pub check_config : Config → Result Config
  check_config c = do
    _ ← check_server c.server
    _ ← check_identity is_uint c
    _ ← check_worker c.driver c.worker
    _ ← check_sync c.sync
    names ← media_names c.sync.allowed_mime_types
    _ ← refuse_if (not (is_set (trim_space c.summary_template))) "summary_template is required"
    _ ← in_section "summary_template: " (compile_summary c.summary_template)
    ok (record c { sync = record c.sync { allowed_mime_types = names } })
