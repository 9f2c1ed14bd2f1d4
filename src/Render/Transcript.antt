-- ===== src/Render/Transcript.antt =====
-- internal/render/render.go, `Transcript`: the body of the note of a thread.
pub mod Source
use slackbot_hubspot.Base.{
  ℕ, zero, suc, ◌+◌, ◌-◌, ◌*◌, String, Bool, true, false, not, ◌&&◌, ◌||◌, Option, none, some, List,
  [], ◌∷◌, ◌++◌, ◌==◌, nat_beq, ltb, length, is_set, if◌then◌else◌,
}
use slackbot_hubspot.Base.Bytes.{bytes, bytes_beq, bytes_ltb}
use slackbot_hubspot.Base.Dates.{date_and_time}
use slackbot_hubspot.Base.Html.{escape_html, cut_bytes}
use slackbot_hubspot.Base.Sorting.{sort, sort_by}
use slackbot_hubspot.Domain.{ℤ, pos, negsuc, Bytes, is_empty, ThreadKey}
use slackbot_hubspot.Domain.Remote.{File, Message}
use slackbot_hubspot.Hubspot.Notes.{marker_of}
use slackbot_hubspot.Render.Markup.{Libraries, safe_url, slack_html}
use slackbot_hubspot.Worker.Copying.{Attachment}

abbrev pub head_of : Bytes → Option (Bytes × Bytes) → Bytes
head_of text none = text
head_of text (some (head, tail)) = head

abbrev pub tail_of : Option (Bytes × Bytes) → Bytes
tail_of none = []
tail_of (some (head, tail)) = tail

-- `strings.TrimLeft(s, "0")`
abbrev pub trim_zeros : Bytes → Bytes
trim_zeros [] = []
trim_zeros (c ∷ cs) = let rest = trim_zeros cs in if nat_beq c b'0' then rest else c ∷ cs

-- `strings.TrimRight(s, "0")`
abbrev pub trim_last_zeros : Bytes → Bytes
trim_last_zeros [] = []
trim_last_zeros (c ∷ cs) =
    let rest = trim_last_zeros cs in if is_empty rest && nat_beq c b'0' then [] else c ∷ rest

-- The order of two timestamps, by their numbers.
unfoldable pub is_earlier : String → String → Bool
is_earlier s t =
    let i = cut_bytes (bytes ".") (bytes s) in
    let j = cut_bytes (bytes ".") (bytes t) in
    let left = trim_zeros (head_of (bytes s) i) in
    let right = trim_zeros (head_of (bytes t) j) in
    if not (nat_beq (length left) (length right))
    then ltb (length left) (length right)
    else if not (bytes_beq left right)
    then bytes_ltb left right
    else bytes_ltb (trim_last_zeros (tail_of i)) (trim_last_zeros (tail_of j))

-- The instant of a number of seconds after 1970.
abbrev pub instant : ℤ → ℕ
instant (pos n) = (n + 62135596800) * 1000000000
instant (negsuc n) = (62135596800 - suc n) * 1000000000

-- The entry of a file in the map of attachments; the zero value where there is none.
abbrev pub attachment_of : String → List (String × Attachment) → Attachment
attachment_of id [] = record { status = []; url = [] }
attachment_of id ((i, a) ∷ as') = let rest = attachment_of id as' in if i == id then a else rest

module _ (l : Libraries) (parse_int : Bytes → Option ℤ) where
  abbrev pub dated : Bytes → Bytes → Option ℤ → Bytes
  dated timestamp fraction none = timestamp
  dated timestamp fraction (some n) =
      date_and_time (instant n) ++ bytes "." ++ fraction ++ bytes " UTC"

  abbrev pub time_text : Bytes → Option (Bytes × Bytes) → Bytes
  time_text timestamp none = timestamp
  time_text timestamp (some (seconds, fraction)) = dated timestamp fraction (parse_int seconds)

  abbrev pub linked_name : Bytes → Bytes → Bytes
  linked_name url name =
      if safe_url l url
      then bytes "<a href=\"" ++ escape_html url ++ bytes "\">" ++ name ++ bytes "</a>"
      else name

  abbrev pub file_html : Attachment → File → Bytes
  file_html a f =
      bytes "<br>Attachment: "
      ++ linked_name a.url (escape_html (bytes f.name))
      ++ bytes " — "
      ++ escape_html (if is_empty a.status then bytes "pending upload" else a.status)

  abbrev pub files_html : List (String × Attachment) → List File → Bytes
  files_html as' [] = []
  files_html as' (f ∷ fs) = file_html (attachment_of f.id as') f ++ files_html as' fs

  unfoldable pub message_html : List (String × Attachment) → Message → Bytes
  message_html as' m =
      bytes "<p><strong>"
      ++ escape_html (bytes (if is_set m.sender_name then m.sender_name else m.user_id))
      ++ bytes "</strong> ("
      ++ escape_html (bytes (if is_set m.user_id then m.user_id else m.bot_id))
      ++ bytes ") — "
      ++ escape_html (time_text (bytes m.timestamp) (cut_bytes (bytes ".") (bytes m.timestamp)))
      ++ (if safe_url l (bytes m.permalink)
          then bytes " · <a href=\""
            ++ escape_html (bytes m.permalink)
            ++ bytes "\">Slack message</a>"
          else [])
      ++ bytes "<br>"
      ++ slack_html l (bytes m.text)
      ++ files_html as' (sort (λ f. f.name) m.files)
      ++ bytes "</p>"

  abbrev pub messages_html : List (String × Attachment) → List Message → Bytes
  messages_html as' [] = []
  messages_html as' (m ∷ ms) = message_html as' m ++ messages_html as' ms

  -- `Transcript`
  unfoldable pub transcript : ThreadKey → List Message → List (String × Attachment) → Bytes
  transcript key ms as' =
      bytes "<p><strong>Slack thread transcript</strong><br>Source: "
      ++ escape_html (marker_of key)
      ++ bytes "</p>"
      ++ messages_html as' (sort_by (λ a b. is_earlier a.timestamp b.timestamp) ms)
