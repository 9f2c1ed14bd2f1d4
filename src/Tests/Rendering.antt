-- ===== src/Tests/Rendering.antt =====
-- Requests, templates and replies.
use mathlib.Core.List.{Memᴰ}
use slackbot_hubspot.Base.{
  length, ◌*◌, refl, ◌≡◌, ◌≤◌, String, true, false, Option, some, List, [], ◌∷◌,
}
use slackbot_hubspot.Base.Bytes.{bytes, utf8}
use slackbot_hubspot.Base.Dates.{rfc3339, date_of, clock_text}
use slackbot_hubspot.Base.Texts.{
  every, plus, trim_left, trim_right, is_space, behind, span, fields, words_from, split_from,
}
use slackbot_hubspot.Domain.{ok, SlackBlock, SlackText, is_empty}
use slackbot_hubspot.Domain.Remote.{Ticket}
use slackbot_hubspot.Render.Tokens.{
  Url, is_digits, ticket, is_trailing, is_hubspot, lowers_to, path_ticket, command_word,
  find_mention, mention_at, links, link_at,
}
use slackbot_hubspot.Render.Parsing.{link_ticket, follow, parts, parse_words, parse}
use slackbot_hubspot.Render.Parsing.Results.{IsResult, parse-IsResult}
use slackbot_hubspot.Render.Parsing.Requests.{ticket_request_read}
use slackbot_hubspot.Render.Parsing.Links.{linked_ticket_owned}
use slackbot_hubspot.Render.Summary.{
  SummaryPart, field_part, literal_part, is_field, compile_summary, slack_escape, field_value,
  render_summary,
}
use slackbot_hubspot.Render.Summary.Escaping.{is_inert, rendered_fields_inert}
use slackbot_hubspot.Render.Summary.Printing.{template_of, IsTemplate, compile_summary-template_of}
use slackbot_hubspot.Render.Blocks.{rune_count, help, help_blocks}
use slackbot_hubspot.Render.Status.Replies.{rendering, replies_accepted}
use slackbot_hubspot.Tests.Samples.{synced}

-- `url.Parse` of the one link of the sample.
abbrev parse_url : String → Option Url
parse_url raw = some (record {
  scheme = "https";
  has_user = false;
  hostname = "app.hubspot.com";
  port = "";
  path = "/contacts/A1/record/0-5/42";
})

abbrev request_text : String
request_text = "<@UBOT> https://app.hubspot.com/contacts/A1/record/0-5/42"

request-parsed : parse parse_url "A1" "UBOT" request_text ≡ ticket "42"
unfolding parse find_mention mention_at behind span trim_left trim_right is_space fields words_from
    parse_words command_word lowers_to links link_at plus follow link_ticket path_ticket split_from
    every
request-parsed = refl

parse-IsResult_example : IsResult (parse parse_url "A1" "UBOT" request_text)
parse-IsResult_example = parse-IsResult parse_url "A1" "UBOT" request_text

ticket_request_read_example :
    parse parse_url "A1" "UBOT" (plus "<@" (plus "UBOT" (plus "> " "42"))) ≡ ticket "42"
ticket_request_read_example =
    ticket_request_read parse_url "A1" "UBOT" refl (unfold every in refl) "42"
      (unfold every in refl)

abbrev link : String
link = "https://app.hubspot.com/contacts/A1/record/0-5/42"

link-followed : follow parse_url "A1" (link ∷ []) "" ≡ some "42"
unfolding follow link_ticket path_ticket split_from trim_left trim_right every lowers_to
link-followed = refl

linked_ticket_owned_example :
    (l : String) × (u : Url) × Memᴰ l (link ∷ [])
    × (parse_url (trim_right is_trailing l) ≡ some u)
    × (is_hubspot u.hostname ≡ true)
    × (u.scheme ≡ "https")
    × (u.has_user ≡ false)
    × (u.port ≡ "")
    × (path_ticket (parts u) ≡ ("A1", "42"))
    × (is_digits "42" ≡ true)
linked_ticket_owned_example = linked_ticket_owned parse_url "A1" (link ∷ []) "42" link-followed refl

abbrev template : List SummaryPart
template = literal_part "Ticket " ∷ field_part "ID" ∷ field_part "Status" ∷ literal_part "." ∷ []

template-IsTemplate : IsTemplate template
unfolding every is_field
template-IsTemplate =
    IsTemplate.field "Ticket " "ID" _ refl refl
      (IsTemplate.field "" "Status" _ refl refl (IsTemplate.text "." refl refl))

compile_summary-template_of_example : compile_summary (template_of template) ≡ ok template
compile_summary-template_of_example =
    compile_summary-template_of template template-IsTemplate
      (unfold template_of plus trim_left trim_right is_space in refl)

abbrev tagged : Ticket
tagged = record {
  company = "";
  contact = "";
  created_at = "";
  id = "<!here>";
  owner = "";
  pipeline = "";
  priority = "";
  status = "a & b";
  subject = "";
  updated_at = "";
  url = "";
}

tagged-rendered : render_summary tagged template ≡ "Ticket &lt;!here&gt;a &amp; b."
unfolding render_summary slack_escape field_value plus
tagged-rendered = refl

rendered_fields_inert_example : every is_inert (render_summary tagged template) ≡ true
rendered_fields_inert_example = rendered_fields_inert tagged template (unfold every in refl)

replies_accepted_example :
    (is_empty (rendering.help "UBOT" true).0 ≡ false)
    × (is_empty (rendering.status synced 300).0 ≡ false)
    × ((b : SlackBlock)
        → Memᴰ b (rendering.status synced 300).1
        → ((t : SlackText)
            → b.text ≡ some t
            → (is_empty t.text ≡ false) × (rune_count t.text ≤ 3000))
          × ((t : SlackText) → Memᴰ t b.fields → rune_count t.text ≤ 2000))
replies_accepted_example = replies_accepted "UBOT" true synced 300

-- The 29th of February 2024, in nanoseconds after year 1.
leap_day-rfc3339 : rfc3339 (63844806896 * 1000000000) ≡ bytes "2024-02-29T12:34:56Z"
unfolding rfc3339 date_of clock_text bytes utf8
leap_day-rfc3339 = refl

help-blocks : length (rendering.help "UBOT" true).1 ≡ 11
unfolding help help_blocks
help-blocks = refl
