-- ===== src/Tests/Hubspot.antt =====
-- A note that was created, and is found on the first page.
use slackbot_hubspot.Base.{String, some, List, [], ◌∷◌, ◌++◌}
use slackbot_hubspot.Base.Bytes.{bytes}
use slackbot_hubspot.Domain.{Bytes}
use slackbot_hubspot.Domain.Remote.{Answer, answered}
use slackbot_hubspot.Hubspot.Calls.{Exchange, responded, no_delay}
use slackbot_hubspot.Hubspot.Notes.{Note, NotePage, marker_of, marked_body}
use slackbot_hubspot.Tests.Samples.{key}

abbrev marker : Bytes
marker = marker_of key

abbrev sent : Bytes
sent = marked_body marker (bytes "<p>Hello</p>")

abbrev created : Exchange String
created = responded (record { status = 201; retry_after = no_delay; result = some "N1" })

abbrev others : List (Answer Note)
others = answered (record { id = "N0"; body = bytes "<p>Source: slack-thread:T1:C2:9</p>" }) ∷ []

abbrev page : String → Answer NotePage
page after =
    answered
      (record { next = ""; notes = others ++ answered (record { id = "N1"; body = sent }) ∷ [] })
