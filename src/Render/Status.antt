-- ===== src/Render/Status.antt =====
-- internal/render/blocks.go, `Status`: the report on a tracked thread.
pub mod Replies
use slackbot_hubspot.Base.{
  ℕ, suc, ◌+◌, ◌-◌, ◌*◌, ◌^◌, String, Bool, true, false, not, ◌&&◌, ◌||◌, Option, none, some, List,
  [], ◌∷◌, ◌++◌, is_set, ltb, leb, nat_beq, if◌then◌else◌,
}
use slackbot_hubspot.Base.Bytes.{bytes_beq, bytes, decimal}
use slackbot_hubspot.Base.Dates.{rfc3339, long_date, unix_text}
use slackbot_hubspot.Domain.{
  Time, Bytes, is_empty, is_zero_time, after, State, is_running, Thread, SlackText, SlackBlock,
}
use slackbot_hubspot.Render.Blocks.{
  block_text, divider, block_context, bounded_blocks, escape_bytes,
}

abbrev pub state_text : State → Bytes
state_text State.pending = bytes "pending"
state_text State.running = bytes "running"
state_text State.up_to_date = bytes "up-to-date"
state_text State.retrying = bytes "retrying"
state_text State.failed = bytes "failed"
state_text State.stopped = bytes "stopped"

abbrev pub is_up_to_date : State → Bool
is_up_to_date State.up_to_date = true
is_up_to_date _ = false

-- The state that is shown: work whose lease has run out is pending.
unfoldable pub shown_state : Thread → Time → State
shown_state thread now =
    if thread.active && is_running thread.state && not (after thread.lease_expires now)
    then State.pending
    else thread.state

-- The number of a text of digits.
abbrev pub number_from : ℕ → Bytes → Option ℕ
number_from n [] = some n
number_from n (c ∷ cs) =
    let rest = number_from (n * 10 + (c - b'0')) cs in
    if leb b'0' c && leb c b'9' then rest else none

-- `strconv.Atoi` behind the sign.
abbrev pub unsigned : Bytes → Option ℕ
unsigned [] = none
unsigned (c ∷ cs) = number_from 0 (c ∷ cs)

-- A positive number that `strconv.Atoi` reads.
abbrev pub positive_number : Bytes → Option ℕ
positive_number [] = none
positive_number (c ∷ cs) = in_range (if nat_beq c b'+' then unsigned cs else unsigned (c ∷ cs))
  where
    in_range : Option ℕ → Option ℕ
    in_range none = none
    in_range (some n) = if ltb 0 n && ltb n (2 ^ 63) then some n else none

abbrev pub onto_count : ℕ → Option Bytes → Option Bytes
onto_count c none = none
onto_count c (some cs) = some (c ∷ cs)

-- `strings.CutSuffix`
unfoldable pub before_suffix : Bytes → Bytes → Option Bytes
before_suffix suffix [] = if is_empty suffix then some [] else none
before_suffix suffix (c ∷ cs) =
    let rest = onto_count c (before_suffix suffix cs) in
    if bytes_beq (c ∷ cs) suffix then some [] else rest

abbrev pub incomplete : Bytes
incomplete = bytes ":warning: Messages synced · attachment upload incomplete"

abbrev pub failed_count : Option ℕ → Bytes
failed_count none = incomplete
failed_count (some n) =
    bytes ":warning: Messages synced · "
    ++ decimal n
    ++ bytes " "
    ++ (if nat_beq n 1 then bytes "attachment" else bytes "attachments")
    ++ bytes " failed"

abbrev pub partial_summary : Option Bytes → Bytes
partial_summary none = incomplete
partial_summary (some count) = failed_count (positive_number count)

-- The line on the synchronization.
unfoldable pub sync_summary : Thread → State → Bytes
sync_summary thread state =
    if not (is_empty thread.current_error)
    then bytes ":warning: Sync needs attention · " ++ escape_bytes (state_text state)
    else if not (is_up_to_date state)
    then bytes "Sync: " ++ escape_bytes (state_text state)
    else if is_empty thread.partial_error
    then bytes ":white_check_mark: Messages and attachments synced"
    else partial_summary
        (before_suffix (bytes " attachment(s) not synchronized") thread.partial_error)

unfoldable pub title : Thread → Bytes
title thread =
    let id = escape_bytes (bytes thread.ticket_id) in
    if is_set thread.ticket_url
    then bytes "*<"
      ++ escape_bytes (bytes thread.ticket_url)
      ++ bytes "|Ticket "
      ++ id
      ++ bytes ">*"
    else bytes "*Ticket " ++ id ++ bytes "*"

-- `slackTimestamp`
unfoldable pub slack_timestamp : Time → Bytes
slack_timestamp t =
    bytes "<!date^"
    ++ unix_text t
    ++ bytes "^{date_long_pretty} at {time_secs}|"
    ++ long_date t
    ++ bytes ">"

abbrev pub tracking : Thread → Bytes
tracking thread = if thread.active then bytes "active" else bytes "stopped"

-- The details, each a label and a value; those without a value are left out.
abbrev pub details : Thread → List (String × Bytes)
details thread =
    ("Current error", thread.current_error)
    ∷ (
      "Next retry",
      (if not (is_zero_time thread.next_attempt) && thread.active
          then rfc3339 thread.next_attempt
          else []),
    )
    ∷ ("Attachments needing attention", thread.partial_error)
    ∷ ("Historical error", thread.historical_error)
    ∷ []

abbrev pub detail_lines : List (String × Bytes) → Bytes
detail_lines [] = []
detail_lines ((label, value) ∷ ds) =
    let rest = detail_lines ds in
    if is_empty value then rest else bytes "\n" ++ bytes label ++ bytes ": " ++ value ++ rest

abbrev pub detail_blocks : List (String × Bytes) → List SlackBlock
detail_blocks [] = []
detail_blocks ((label, value) ∷ ds) =
    let rest = detail_blocks ds in
    if is_empty value
    then rest
    else block_text "mrkdwn" (bytes "*" ++ bytes label ++ bytes "*\n" ++ escape_bytes value) ∷ rest

abbrev pub divided : List SlackBlock → List SlackBlock
divided [] = []
divided (b ∷ bs) = divider ∷ b ∷ bs

unfoldable pub status_text : Thread → Time → Bytes
status_text thread now =
    bytes "Ticket: "
    ++ bytes thread.ticket_id
    ++ bytes "\nLink: "
    ++ bytes thread.ticket_url
    ++ bytes "\nTracking: "
    ++ tracking thread
    ++ bytes "\nSync: "
    ++ state_text (shown_state thread now)
    ++ bytes "\nLast successful sync: "
    ++ (if is_zero_time thread.last_success then bytes "never" else rfc3339 thread.last_success)
    ++ detail_lines (details thread)

unfoldable pub status_blocks : Thread → Time → List SlackBlock
status_blocks thread now =
    block_text "mrkdwn" (title thread)
    ∷ block_text "mrkdwn" (bytes "*" ++ sync_summary thread (shown_state thread now) ++ bytes "*")
    ∷ block_context (
        bytes "Tracking "
        ++ tracking thread
        ++ bytes " · Last synced "
        ++ (if is_zero_time thread.last_success
            then bytes "never"
            else slack_timestamp thread.last_success))
    ∷ divided (detail_blocks (details thread))

-- `Status`
unfoldable pub status : Thread → Time → Bytes × List SlackBlock
status thread now = (status_text thread now, bounded_blocks (status_blocks thread now))
