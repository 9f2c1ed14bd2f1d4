-- ===== src/Slack/Pages.antt =====
-- internal/slack/client.go, `Thread`: the loop over the pages of a thread. What Slack answers for a
-- cursor at each attempt is an argument, and so is whether the context ends while a limit is waited
-- for.
pub mod Ends
pub mod Messages
use slackbot_hubspot.Base.{
  ℕ, zero, suc, ◌+◌, ◌-◌, String, Bool, true, false, not, ◌&&◌, ◌||◌, Option, none, some, List, [],
  ◌∷◌, ◌++◌, ◌==◌, is_set, if◌then◌else◌, map,
}
use slackbot_hubspot.Base.Sorting.{sort, compact}
use slackbot_hubspot.Base.Texts.{trim_space}
use slackbot_hubspot.Domain.{ℤ, ThreadKey}
use slackbot_hubspot.Domain.Remote.{File, Message, Fault, canceled, Answer, answered, failed}
use slackbot_hubspot.Slack.Calls.{slack_error, has_code, is_one_of}

-- What the JSON of a file, a reaction, a message and a page decode to.
pub record ApiFile : Type 0 where
  pub id : String
  pub mime : String
  pub name : String
  pub size : ℤ
  pub url : String
  pub url_private : String

pub record Reaction : Type 0 where
  pub name : String
  pub users : List String

pub record ApiMessage : Type 0 where
  pub bot_id : String
  pub files : List ApiFile
  pub reactions : List Reaction
  pub subtype : String
  pub text : String
  pub thread_ts : String
  pub timestamp : String
  pub user_id : String
  pub username : String

pub record Page : Type 0 where
  pub has_more : Bool
  pub messages : List ApiMessage
  pub cursor : String

-- The bot's IDs, which `VerifyIdentity` has set.
pub record Identity : Type 0 where
  pub bot_id : String
  pub bot_user_id : String

-- `apiFile.domain`
unfoldable pub file_of : ApiFile → File
file_of f = record {
  id = f.id;
  mime = f.mime;
  name = f.name;
  size = f.size;
  url = if is_set f.url then f.url else f.url_private;
}

abbrev pub bot_reactions : Identity → List Reaction → List String
bot_reactions i [] = []
bot_reactions i (r ∷ rs) =
    let rest = bot_reactions i rs in
    if is_set i.bot_user_id && is_one_of i.bot_user_id r.users then r.name ∷ rest else rest

-- The message that is kept of a page's.
unfoldable pub message_of : Identity → ApiMessage → Message
message_of i m = record {
  bot_id = m.bot_id;
  bot_reactions = compact (sort (λ s. s) (bot_reactions i m.reactions));
  files = map file_of m.files;
  permalink = "";
  sender_name = m.username;
  subtype = m.subtype;
  text = m.text;
  thread_ts = m.thread_ts;
  timestamp = m.timestamp;
  user_id =
      if not (is_set m.user_id) && is_set m.bot_id && m.bot_id == i.bot_id
      then i.bot_user_id
      else m.user_id;
}

-- Whether a message with a timestamp is there; `seenMessages` has the timestamps of all that are
-- kept.
unfoldable pub has_timestamp : String → List Message → Bool
has_timestamp ts [] = false
has_timestamp ts (m ∷ ms) = m.timestamp == ts || has_timestamp ts ms

-- The messages of a page behind those before it.
unfoldable pub add_messages : Identity → List ApiMessage → List Message → List Message
add_messages i [] ms = ms
add_messages i (m ∷ rest) ms = add_messages i rest (
    if not (is_set m.timestamp) || has_timestamp m.timestamp ms
    then ms
    else ms ++ message_of i m ∷ [])

-- What Slack answers: for a cursor, at an attempt from 0 on, and whether the context has ended in
-- the wait after it.
pub record Source : Type 0 where
  pub page : String → ℕ → Answer Page
  pub stopped : String → ℕ → Bool

-- What the loop over the pages comes to: it ends, or it has used up its turns.
pub data Pages : Type 0 where
  ended : Answer (List Message) → Pages
  used_up : Pages

-- An attempt, what comes after the wait for a limit, and whether the context ends in the wait.
abbrev pub attempted : Bool → Answer Page → Answer Page → Answer Page
attempted stopped later (answered p) = answered p
attempted stopped later (failed e) =
    if not (has_code "ratelimited" e) then failed e else if stopped then failed canceled else later

module _ (source : Source) where
  -- The attempts at a page, of which `left` may follow this one, from three on.
  unfoldable pub fetch : String → ℕ → Answer Page
  fetch cursor zero = source.page cursor 3
  fetch cursor (suc left) =
      attempted (source.stopped cursor (2 - left)) (fetch cursor left)
        (source.page cursor (2 - left))

  module _ (i : Identity) where
    -- The end of a turn, with the messages so far, the cursors that were seen and the rest.
    abbrev pub next_page :
        (String → List String → List Message → Pages)
        → List String
        → List Message
        → Bool
        → String
        → Pages
    next_page rest seen ms has_more cursor =
        if not (is_set cursor)
        then ended
            (if has_more then failed (slack_error "incomplete_pagination" true) else answered ms)
        else if is_one_of cursor seen
        then ended (failed (slack_error "repeated_cursor" true))
        else rest cursor (cursor ∷ seen) ms

    abbrev pub take_page :
        (String → List String → List Message → Pages)
        → List String
        → List Message
        → Answer Page
        → Pages
    take_page rest seen ms (failed e) = ended (failed e)
    take_page rest seen ms (answered p) =
        next_page rest seen (add_messages i p.messages ms) p.has_more (trim_space p.cursor)

    -- The loop, on a number of turns.
    unfoldable pub pages : ℕ → String → List String → List Message → Pages
    pages zero cursor seen ms = used_up
    pages (suc turns) cursor seen ms = take_page (pages turns) seen ms (fetch cursor 3)

    abbrev pub check_root : ThreadKey → Answer (List Message) → Answer (List Message)
    check_root key (failed e) = failed e
    check_root key (answered ms) =
        if has_timestamp key.thread_ts ms
        then answered ms
        else failed (slack_error "incomplete_thread" true)

    abbrev pub rooted : ThreadKey → Pages → Pages
    rooted key used_up = used_up
    rooted key (ended a) = ended (check_root key a)

    -- `Thread`, up to the names of the senders.
    unfoldable pub read_pages : ℕ → ThreadKey → Pages
    read_pages turns key = rooted key (pages turns "" [] [])
