-- ===== src/Tests/Slack.antt =====
-- A thread of two pages, and a limited call.
use slackbot_hubspot.Base.{
  ℕ, refl, subst, if_rule, ◌≡◌, String, true, false, some, List, [], ◌∷◌, arith, is_set, ◌==◌,
  if◌then◌else◌,
}
use slackbot_hubspot.Base.Texts.{trim_space, trim_left, trim_right, is_space}
use slackbot_hubspot.Domain.{pos}
use slackbot_hubspot.Domain.Remote.{Message, Answer, answered}
use slackbot_hubspot.Slack.Calls.{Exchange, responded, undecoded, is_one_of}
use slackbot_hubspot.Slack.Pages.{
  ApiMessage, Page, Identity, Source, ended, fetch, pages, add_messages, has_timestamp, message_of,
  read_pages,
}
use slackbot_hubspot.Slack.Pages.Ends.{thread_ends}
use slackbot_hubspot.Slack.Pages.Messages.{is_distinct, thread_whole}
use slackbot_hubspot.Tests.Samples.{key}

abbrev limited : Exchange ℕ
limited = responded (record { status = 429; retry_after = some (pos 7); body = undecoded })

abbrev message : String → ApiMessage
message ts = record {
  bot_id = "";
  files = [];
  reactions = [];
  subtype = "";
  text = "";
  thread_ts = "";
  timestamp = ts;
  user_id = "U1";
  username = "";
}

-- The first page names a second one, which holds the first message once more.
abbrev page : String → Page
page cursor =
    if cursor == "p2"
    then record {
      has_more = false;
      messages = message "1.000001" ∷ message "2.000001" ∷ [];
      cursor = "";
    }
    else record { has_more = true; messages = message "1.000001" ∷ []; cursor = "p2" }

abbrev source : Source
source = record {
  page = λ cursor attempt. answered (page cursor);
  stopped = λ cursor attempt. false;
}

abbrev identity : Identity
identity = record { bot_id = "B1"; bot_user_id = "UBOT" }

cursor-listed :
    (cursor : String) (attempt : ℕ) (p : Page)
    → source.page cursor attempt ≡ answered p
    → is_set (trim_space p.cursor) ≡ true
    → is_one_of (trim_space p.cursor) ("p2" ∷ []) ≡ true
unfolding trim_left trim_right is_space
cursor-listed cursor attempt p h =
    let same : page cursor ≡ p = ground (arith, h) in
    subst IsListed same
      (if_rule IsListed (cursor == "p2") _ _ (λ second set. set) (λ first set. refl))
  where
    IsListed : Page → Type 0
    IsListed q =
        is_set (trim_space q.cursor) ≡ true → is_one_of (trim_space q.cursor) ("p2" ∷ []) ≡ true

thread_ends_example : (a : Answer (List Message)) × (read_pages source identity 2 key ≡ ended a)
thread_ends_example = thread_ends source identity ("p2" ∷ []) cursor-listed 2 key (omega arith)

abbrev both : List Message
both = message_of identity (message "1.000001") ∷ message_of identity (message "2.000001") ∷ []

pages-both : read_pages source identity 2 key ≡ ended (answered both)
unfolding read_pages pages fetch add_messages has_timestamp message_of trim_left trim_right is_space
pages-both = refl

thread_whole_example : (is_distinct both ≡ true) × (has_timestamp key.thread_ts both ≡ true)
thread_whole_example = thread_whole source identity 2 key both pages-both
