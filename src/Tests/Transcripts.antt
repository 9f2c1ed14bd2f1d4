-- ===== src/Tests/Transcripts.antt =====
-- The transcript of one message, and its note on the first page.
use slackbot_hubspot.Base.{refl, ◌≡◌, String, Option, none, some, [], ◌∷◌}
use slackbot_hubspot.Base.Bytes.{bytes, utf8}
use slackbot_hubspot.Base.Html.{escape_html, cut_bytes, span_bytes}
use slackbot_hubspot.Base.Dates.{date_and_time, date_of, clock_text}
use slackbot_hubspot.Base.Sorting.{sort}
use slackbot_hubspot.Domain.{ℤ, pos, Bytes}
use slackbot_hubspot.Domain.Remote.{Message, Answer, answered}
use slackbot_hubspot.Hubspot.Calls.{Exchange, responded, no_delay}
use slackbot_hubspot.Hubspot.Notes.{NotePage}
use slackbot_hubspot.Render.Markup.{
  Libraries, format_of, mrkdwn_steps, mrkdwn, safe_url, token_html, next_token, html_from,
  slack_html,
}
use slackbot_hubspot.Render.Transcript.{message_html, transcript}
use slackbot_hubspot.Tests.Samples.{key}

-- A text without entities, no URLs, and no numbers of seconds but 7.
abbrev libraries : Libraries
libraries = record { unescape = λ b. b; parse_url = λ b. none }

abbrev seven : Bytes → Option ℤ
seven b = some (pos 7)

abbrev message : Message
message = record {
  bot_id = "";
  bot_reactions = [];
  files = [];
  permalink = "";
  sender_name = "Ann";
  subtype = "";
  text = "*x* <@U2|Bo> <b";
  thread_ts = "";
  timestamp = "7.5";
  user_id = "U1";
}

message-html :
    message_html libraries seven [] message
    ≡ bytes
        "<p><strong>Ann</strong> (U1) — 1970-01-01 00:00:07.5 UTC<br><strong>x</strong> @Bo (U2) &lt;b</p>"
unfolding message_html escape_html bytes utf8 cut_bytes span_bytes date_and_time date_of clock_text
    safe_url slack_html html_from next_token token_html mrkdwn mrkdwn_steps format_of sort
message-html = refl

abbrev body : Bytes
body = transcript libraries seven key (message ∷ []) []

abbrev page : String → Answer NotePage
page after =
    answered (record { next = ""; notes = answered (record { id = "N1"; body = body }) ∷ [] })

abbrev created : Exchange String
created = responded (record { status = 201; retry_after = no_delay; result = some "N1" })
