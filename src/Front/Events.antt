-- ===== src/Front/Events.antt =====
-- internal/httpapi/server.go, `SlackEvent`, up to the rendering of replies: which envelopes of Slack
-- are about a message of a thread, and what it says. An optional text that is not set is `none`;
-- its value is then empty.
use slackbot_hubspot.Base.{
  String, Bool, true, false, not, ◌&&◌, ◌||◌, Option, none, some, ◌==◌, is_set, if◌then◌else◌, ◌≡◌,
  ◌⊎◌, inl, inr, refl,
}
use slackbot_hubspot.Domain.{ThreadKey}
use slackbot_hubspot.Front.Timestamps.{is_slack_timestamp}

pub record SlackMessage : Type 0 where
  pub bot_id : Option String
  pub subtype : Option String
  pub text : Option String
  pub thread_ts : Option String
  pub ts : Option String
  pub user : Option String

pub record SlackEventBody : Type 0 where
  pub kind : String
  pub channel : Option String
  pub deleted_ts : Option String
  pub content : SlackMessage
  pub message : Option SlackMessage
  pub previous_message : Option SlackMessage

pub record Envelope : Type 0 where
  pub kind : String
  pub challenge : Option String
  pub team_id : Option String
  pub event_id : Option String
  pub event : Option SlackEventBody

-- `x.Value`
abbrev pub value : Option String → String
value none = ""
value (some s) = s

-- The responses, and what `Observe` is told.
pub data Response : Type 0 where
  acknowledged : Option String → Response
  bad_request unauthorized unavailable : Response

pub data Observation : Type 0 where
  rejected ignored duplicate accepted : Observation

pub record Reply : Type 0 where
  pub response : Response
  pub observed : Option Observation

abbrev pub reject : Reply
reject = record { response = Response.bad_request; observed = some Observation.rejected }

abbrev pub ignore : Reply
ignore = record { response = Response.acknowledged none; observed = some Observation.ignored }

abbrev pub deny : Reply
deny = record { response = Response.unauthorized; observed = some Observation.rejected }

-- The handler returns, or goes on.
pub data Stage {ℓ} (A : Type ℓ) : Type ℓ where
  stops : Reply → Stage A
  goes_on : A → Stage A

infixl 5 ◌>>=◌
abbrev pub ◌>>=◌ {ℓ κ} : {A : Type ℓ} {B : Type κ} → Stage A → (A → Stage B) → Stage B
stops x >>= f = stops x
goes_on a >>= f = f a

abbrev pub require : Bool → Reply → Stage (Unit {0})
require true x = goes_on tt
require false x = stops x

pub record Options : Type 0 where
  pub bot_id : String
  pub bot_user_id : String
  pub workspace_id : String

unfoldable pub verify_url : Options → Envelope → Reply
verify_url o body =
    if value body.challenge == ""
    then reject
    else if is_foreign body.team_id
    then deny
    else record { response = Response.acknowledged body.challenge; observed = none }
  where
    is_foreign : Option String → Bool
    is_foreign none = false
    is_foreign (some team) = not (team == o.workspace_id)

abbrev pub present_event : Option SlackEventBody → Stage SlackEventBody
present_event none = stops reject
present_event (some e) = goes_on e

-- The event of an envelope for this workspace, with its channel.
unfoldable pub read_envelope : Options → Envelope → Stage SlackEventBody
read_envelope o body =
    require
      (body.kind == "event_callback"
        && not (value body.event_id == "")
        && not (value body.team_id == ""))
      reject
    >>= λ _. present_event body.event >>= λ e.
        require (value body.team_id == o.workspace_id) deny >>= λ _.
        require (not (e.kind == "")) reject >>= λ _.
        require (e.kind == "message" || e.kind == "app_mention") ignore >>= λ _.
        require (not (value e.channel == "")) reject >>= λ _. goes_on e

abbrev pub present_message : Option SlackMessage → Stage SlackMessage
present_message none = stops reject
present_message (some m) = goes_on m

abbrev pub is_plain : String → Bool
is_plain subtype =
    subtype == ""
    || subtype == "bot_message"
    || subtype == "file_share"
    || subtype == "thread_broadcast"

abbrev pub is_change : String → Bool
is_change subtype = subtype == "message_changed" || subtype == "message_deleted"

-- The switch on the subtype: the message that the event is about.
unfoldable pub read_message : SlackEventBody → Stage SlackMessage
read_message e =
    let subtype = value e.content.subtype in
    if is_plain subtype
    then goes_on e.content
    else if subtype == "message_changed"
    then present_message e.message
    else if subtype == "message_deleted"
    then (present_message e.previous_message >>= λ m.
        require (not (value e.deleted_ts == "")) reject >>= λ _.
        goes_on (record m { ts = e.deleted_ts }))
    else stops ignore

abbrev pub first_set : String → String → String
first_set a b = if a == "" then b else a

-- What is known of a message that may be recorded.
pub record Incoming : Type 0 where
  pub actor : String
  pub changed : Bool
  pub event_id : String
  pub key : ThreadKey
  pub message_ts : String
  pub text : String

-- The bot itself wrote the message.
abbrev pub is_own : Options → SlackMessage → Bool
is_own o m = value m.user == o.bot_user_id || (is_set o.bot_id && value m.bot_id == o.bot_id)

abbrev pub actor_of : SlackMessage → String
actor_of m = first_set (value m.user) (value m.bot_id)

abbrev pub thread_ts_of : SlackMessage → String
thread_ts_of m = first_set (value m.thread_ts) (value m.ts)

abbrev pub incoming : Envelope → SlackEventBody → SlackMessage → Incoming
incoming body e m = record {
  actor = actor_of m;
  changed = is_change (value e.content.subtype);
  event_id = value body.event_id;
  key = record {
    channel_id = value e.channel;
    thread_ts = thread_ts_of m;
    workspace_id = value body.team_id;
  };
  message_ts = value m.ts;
  text = value m.text;
}

-- The checks of the message and of its timestamps.
unfoldable pub check_message : Options → Envelope → SlackEventBody → SlackMessage → Stage Incoming
check_message o body e m = require (not (is_own o m)) ignore >>= λ _.
    require (is_plain (value m.subtype) || is_change (value m.subtype)) ignore >>= λ _.
    require (not (actor_of m == "") && is_slack_timestamp (value m.ts)) reject >>= λ _.
    require (is_slack_timestamp (thread_ts_of m)) reject >>= λ _. goes_on (incoming body e m)

unfoldable pub read_incoming : Options → Envelope → Stage Incoming
unfolding read_envelope read_message check_message
read_incoming o body =
    read_envelope o body >>= λ e. read_message e >>= λ m. check_message o body e m

pub Stage-cases {ℓ} :
    {A : Type ℓ} (s : Stage A) → ((a : A) × (s ≡ goes_on a)) ⊎ ((x : Reply) × (s ≡ stops x))
Stage-cases (goes_on a) = inl (a, refl)
Stage-cases (stops x) = inr (x, refl)
