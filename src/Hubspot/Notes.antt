-- ===== src/Hubspot/Notes.antt =====
-- internal/hubspot/client.go, `FindNote`, `CreateNote` and `UpdateNote`, and `ThreadKey.Marker` of
-- internal/domain/domain.go. What HubSpot answers is an argument: for a page its notes, each as it
-- is fetched.
pub mod Recovery
use slackbot_hubspot.Base.{
  ℕ, zero, suc, String, Bool, true, false, not, Option, none, some, List, [], ◌∷◌, ◌++◌, is_set,
  ltb, if◌then◌else◌,
}
use slackbot_hubspot.Base.Bytes.{bytes}
use slackbot_hubspot.Base.Html.{escape_html, has_infix}
use slackbot_hubspot.Domain.{Bytes, ThreadKey}
use slackbot_hubspot.Domain.Remote.{Fault, Answer, answered, failed}
use slackbot_hubspot.Render.Blocks.{rune_count}
use slackbot_hubspot.Slack.Calls.{is_one_of}
use slackbot_hubspot.Hubspot.Calls.{hubspot_error, Exchange, request}

-- `ThreadKey.Marker`
unfoldable pub marker_of : ThreadKey → Bytes
marker_of key =
    bytes "slack-thread:"
    ++ bytes key.workspace_id
    ++ bytes ":"
    ++ bytes key.channel_id
    ++ bytes ":"
    ++ bytes key.thread_ts

-- What tells the notes of a thread from others.
unfoldable pub source_line : Bytes → Bytes
source_line marker = bytes "Source: " ++ escape_html marker ++ bytes "</p>"

pub record Note : Type 0 where
  pub id : String
  pub body : Bytes

pub record NotePage : Type 0 where
  pub next : String
  pub notes : List (Answer Note)

abbrev pub too_large : Fault
too_large = hubspot_error "note_too_large" false

abbrev pub no_id : Fault
no_id = hubspot_error "invalid_response" true

-- The notes of a page, up to the first one of the thread.
unfoldable pub search_notes : Bytes → List (Answer Note) → Answer String
search_notes line [] = answered ""
search_notes line (failed e ∷ ns) = failed e
search_notes line (answered n ∷ ns) =
    let rest = search_notes line ns in
    if not (is_set n.id)
    then failed no_id
    else if has_infix line n.body
    then answered n.id
    else rest

-- What the loop over the pages comes to: it ends, or it has used up its turns.
pub data Search : Type 0 where
  ended : Answer String → Search
  used_up : Search

module _ (page : String → Answer NotePage) (line : Bytes) where
  abbrev pub next_notes : (String → List String → Search) → List String → String → Search
  next_notes rest seen after =
      if not (is_set after)
      then ended (answered "")
      else if is_one_of after seen
      then ended (failed (hubspot_error "repeated_cursor" true))
      else rest after (after ∷ seen)

  abbrev pub after_notes :
      (String → List String → Search) → List String → String → Answer String → Search
  after_notes rest seen after (failed e) = ended (failed e)
  after_notes rest seen after (answered id) =
      if is_set id then ended (answered id) else next_notes rest seen after

  abbrev pub take_notes : (String → List String → Search) → List String → Answer NotePage → Search
  take_notes rest seen (failed e) = ended (failed e)
  take_notes rest seen (answered p) = after_notes rest seen p.next (search_notes line p.notes)

  -- The loop of `FindNote`, on a number of turns.
  unfoldable pub find_notes : ℕ → String → List String → Search
  find_notes zero after seen = used_up
  find_notes (suc turns) after seen = take_notes (find_notes turns) seen (page after)

-- `FindNote`
unfoldable pub find_note : (String → Answer NotePage) → ℕ → Bytes → Search
find_note page turns marker = find_notes page (source_line marker) turns "" []

-- The body that `CreateNote` sends.
unfoldable pub marked_body : Bytes → Bytes → Bytes
marked_body marker body =
    if not (has_infix (source_line marker) body)
    then bytes "<p>" ++ source_line marker ++ body
    else body

abbrev pub check_id : Answer String → Answer String
check_id (failed e) = failed e
check_id (answered id) = if is_set id then answered id else failed no_id

-- `CreateNote`: the body that is sent, if one is, and the answer. `x` is the exchange, whose result
-- is the ID of the note.
unfoldable pub create_note : Bytes → Bytes → Bool → Exchange String → Option Bytes × Answer String
create_note marker body over x =
    if ltb 65536 (rune_count (marked_body marker body))
    then (none, failed too_large)
    else (some (marked_body marker body), check_id (request over x))

-- `UpdateNote`: the body that is sent, if one is, and the fault.
unfoldable pub update_note : Bytes → Bool → Exchange (Unit {0}) → Option Bytes × Answer (Unit {0})
update_note body over x =
    if ltb 65536 (rune_count body) then (none, failed too_large) else (some body, request over x)
