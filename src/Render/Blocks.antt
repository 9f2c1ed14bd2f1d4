-- ===== src/Render/Blocks.antt =====
-- internal/render/blocks.go: the parts of replies, and `Help`.
use slackbot_hubspot.Base.{
  ℕ, ◌+◌, String, Bool, true, false, ◌&&◌, ◌||◌, Option, none, some, List, [], ◌∷◌, ◌++◌, ◌==◌,
  is_set, ltb, leb, nat_beq, if◌then◌else◌,
}
use slackbot_hubspot.Base.Bytes.{bytes}
use slackbot_hubspot.Domain.{Bytes, is_empty, SlackText, SlackBlock}

abbrev pub text_of : String → Bytes → SlackText
text_of kind text = record { kind = kind; text = text }

abbrev pub block_text : String → Bytes → SlackBlock
block_text kind text = record {
  kind = "section";
  text = some (text_of kind text);
  elements = [];
  fields = [];
}

abbrev pub block_header : Bytes → SlackBlock
block_header text = record {
  kind = "header";
  text = some (text_of "plain_text" text);
  elements = [];
  fields = [];
}

abbrev pub divider : SlackBlock
divider = record { kind = "divider"; text = none; elements = []; fields = [] }

abbrev pub block_context : Bytes → SlackBlock
block_context text = record {
  kind = "context";
  text = none;
  elements = text_of "mrkdwn" text ∷ [];
  fields = [];
}

-- `utf8.RuneCountInString`: the bytes that do not continue a character.
unfoldable pub rune_count : Bytes → ℕ
rune_count [] = 0
rune_count (c ∷ cs) =
    let rest = rune_count cs in if leb 0x80 c && ltb c 0xc0 then rest else rest + 1

abbrev pub is_bad_text : Option SlackText → Bool
is_bad_text none = false
is_bad_text (some t) = is_empty t.text || ltb 3000 (rune_count t.text)

abbrev pub has_long_field : List SlackText → Bool
has_long_field [] = false
has_long_field (t ∷ ts) = ltb 2000 (rune_count t.text) || has_long_field ts

abbrev pub has_bad_block : List SlackBlock → Bool
has_bad_block [] = false
has_bad_block (b ∷ bs) = is_bad_text b.text || has_long_field b.fields || has_bad_block bs

-- `boundedBlocks`
unfoldable pub bounded_blocks : List SlackBlock → List SlackBlock
bounded_blocks bs = if has_bad_block bs then [] else bs

-- `slackEscape`, of bytes.
unfoldable pub escape_bytes : Bytes → Bytes
escape_bytes [] = []
escape_bytes (c ∷ cs) =
    let rest = escape_bytes cs in
    if nat_beq c b'&'
    then bytes "&amp;" ++ rest
    else if nat_beq c b'<'
    then bytes "&lt;" ++ rest
    else if nat_beq c b'>'
    then bytes "&gt;" ++ rest
    else c ∷ rest

abbrev pub mention_of : String → Bytes
mention_of bot = if is_set bot then bytes "<@" ++ bytes bot ++ bytes ">" else bytes "@bot"

abbrev pub help_commands : List (String × String)
help_commands =
    ("status", "Check tracking and sync status")
    ∷ ("sync", "Update the HubSpot transcript")
    ∷ ("untrack", "Stop tracking")
    ∷ ("resume", "Resume and sync missed messages and files")
    ∷ ("help", "Show these commands")
    ∷ []

abbrev pub command_blocks : Bytes → List (String × String) → List SlackBlock
command_blocks mention [] = []
command_blocks mention ((name, description) ∷ cs) =
    block_text "mrkdwn" (mention ++ bytes " `" ++ bytes name ++ bytes "` — " ++ bytes description)
    ∷ command_blocks mention cs

abbrev pub invalid_block : Bool → List SlackBlock
invalid_block true = block_text "mrkdwn" (bytes "I couldn't understand that request.") ∷ []
invalid_block false = []

unfoldable pub help_blocks : String → Bool → List SlackBlock
help_blocks bot invalid =
    let mention = mention_of bot in
    invalid_block invalid
    ++ block_header (bytes "Start tracking")
      ∷ block_text "mrkdwn" (
          bytes "Post a new channel message with a ticket ID or HubSpot ticket URL:\n"
          ++ mention
          ++ bytes " `12345`")
      ∷ divider
      ∷ block_text "mrkdwn" (bytes "*In the thread*")
      ∷ command_blocks mention help_commands
    ++ block_context (
        bytes
          "Stopping removes the tracking reaction. Your ticket, note, files, and sync reactions stay.")
      ∷ []

abbrev pub element_texts : List SlackText → List Bytes
element_texts [] = []
element_texts (t ∷ ts) = t.text ∷ element_texts ts

abbrev pub block_texts : SlackBlock → Option SlackText → List Bytes
block_texts b none = element_texts b.elements
block_texts b (some t) =
    (if b.kind == "header" then bytes "*" ++ t.text ++ bytes "*" else t.text)
    ∷ element_texts b.elements

abbrev pub fallback : List SlackBlock → List Bytes
fallback [] = []
fallback (b ∷ bs) = block_texts b b.text ++ fallback bs

abbrev pub joined_behind : Bytes → List Bytes → Bytes
joined_behind t [] = t
joined_behind t (u ∷ us) = t ++ bytes "\n\n" ++ joined_behind u us

-- `strings.Join(fallback, "\n\n")`
abbrev pub joined : List Bytes → Bytes
joined [] = []
joined (t ∷ ts) = joined_behind t ts

-- `Help`
unfoldable pub help : String → Bool → Bytes × List SlackBlock
help bot invalid = (joined (fallback (help_blocks bot invalid)), help_blocks bot invalid)
