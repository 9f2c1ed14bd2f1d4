-- ===== src/Tests/Front.antt =====
-- A link that Slack reports.
use slackbot_hubspot.Base.{refl, ◌≡◌, true, false, none, some}
use slackbot_hubspot.Base.Bytes.{bytes, utf8}
use slackbot_hubspot.Domain.{Event, Kind}
use slackbot_hubspot.Domain.Remote.{Ticket, answered}
use slackbot_hubspot.Front.Timestamps.{is_slack_timestamp, whole, fraction}
use slackbot_hubspot.Front.Events.{
  SlackMessage, Envelope, Options, Incoming, goes_on, read_incoming, read_envelope, read_message,
  check_message,
}
use slackbot_hubspot.Front.Handler.{Rules, event_of, plain_event, misplaced}
use slackbot_hubspot.Tests.Samples.{rendering}

abbrev options : Options
options = record { bot_id = "B1"; bot_user_id = "UBOT"; workspace_id = "T1" }

-- Every message mentions ticket 42.
abbrev rules : Rules
rules = record {
  parse = λ text. record { command = ""; invalid = false; mentioned = true; ticket_id = "42" };
  summary = λ ticket. bytes "Linked";
}

abbrev ticket : Ticket
ticket = record {
  company = "";
  contact = "";
  created_at = "";
  id = "42";
  owner = "";
  pipeline = "";
  priority = "";
  status = "";
  subject = "S";
  updated_at = "";
  url = "https://example.org/42";
}

abbrev content : SlackMessage
content = record {
  bot_id = none;
  subtype = none;
  text = some "<@UBOT> 42";
  thread_ts = none;
  ts = some "1.000001";
  user = some "U1";
}

abbrev envelope : Envelope
envelope = record {
  kind = "event_callback";
  challenge = none;
  team_id = some "T1";
  event_id = some "E1";
  event = some (record {
    kind = "app_mention";
    channel = some "C1";
    deleted_ts = none;
    content = content;
    message = none;
    previous_message = none;
  });
}

abbrev root : Incoming
root = record {
  actor = "U1";
  changed = false;
  event_id = "E1";
  key = record { channel_id = "C1"; thread_ts = "1.000001"; workspace_id = "T1" };
  message_ts = "1.000001";
  text = "<@UBOT> 42";
}

-- The sample message passes all checks.
envelope-read : read_incoming options envelope ≡ goes_on root
unfolding read_incoming read_envelope read_message check_message is_slack_timestamp whole fraction
    bytes utf8
envelope-read = refl

abbrev edited : Incoming
edited = record root { changed = true }

abbrev inside : Incoming
inside = record root { message_ts = "2.000001" }

abbrev turned_down : Event
turned_down = record (plain_event inside 100) { kind = Kind.reply; reply = misplaced }

inside-event : event_of rendering options rules inside (answered ticket) 100 none ≡ some turned_down
unfolding event_of
inside-event = refl
