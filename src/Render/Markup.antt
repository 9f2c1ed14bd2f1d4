-- ===== src/Render/Markup.antt =====
-- internal/render/render.go, `mrkdwn`, `slackHTML` and `safeURL`: the text of a message in HTML.
-- `html.UnescapeString` and `url.Parse` are arguments.
use slackbot_hubspot.Base.{
  ℕ, zero, suc, Bool, false, not, ◌&&◌, ◌||◌, Option, none, some, [], ◌∷◌, ◌++◌, nat_beq, length,
  if◌then◌else◌,
}
use slackbot_hubspot.Base.Bytes.{bytes, bytes_beq, starts_with}
use slackbot_hubspot.Base.Html.{escape_html, cut_bytes, span_bytes, drop}
use slackbot_hubspot.Domain.{Bytes, is_empty}

-- What is looked at in a URL.
pub record WebUrl : Type 0 where
  pub scheme : Bytes
  pub host : Bytes
  pub has_user : Bool

pub record Libraries : Type 0 where
  pub unescape : Bytes → Bytes
  pub parse_url : Bytes → Option WebUrl

abbrev pub is_web : Option WebUrl → Bool
is_web none = false
is_web (some u) =
    (bytes_beq u.scheme (bytes "https") || bytes_beq u.scheme (bytes "http"))
    && not (is_empty u.host)
    && not u.has_user

-- A pair of delimiters, and the tags that it becomes.
pub record Format : Type 0 where
  pub delimiter : Bytes
  pub opens : Bytes
  pub closes : Bytes

abbrev pub format : Bytes → Bytes → Bytes → Option Format
format delimiter opens closes =
    some (record { delimiter = delimiter; opens = opens; closes = closes })

unfoldable pub format_of : Bytes → Option Format
format_of text =
    if starts_with (bytes "```") text
    then format (bytes "```") (bytes "<pre>") (bytes "</pre>")
    else if starts_with (bytes "`") text
    then format (bytes "`") (bytes "<code>") (bytes "</code>")
    else if starts_with (bytes "*") text
    then format (bytes "*") (bytes "<strong>") (bytes "</strong>")
    else if starts_with (bytes "_") text
    then format (bytes "_") (bytes "<em>") (bytes "</em>")
    else if starts_with (bytes "~") text
    then format (bytes "~") (bytes "<del>") (bytes "</del>")
    else none

-- A byte that does not end a run.
abbrev pub is_plain_byte : ℕ → Bool
is_plain_byte c =
    not (nat_beq c 10 || nat_beq c b'`' || nat_beq c b'*' || nat_beq c b'_' || nat_beq c b'~')

module _ (l : Libraries) where
  -- `safeURL`
  unfoldable pub safe_url : Bytes → Bool
  safe_url raw = is_web (l.parse_url raw)

  abbrev pub plain_html : Bytes → Bytes
  plain_html text = escape_html (l.unescape text)

  -- What a step of `mrkdwn` writes, and the text that is left.
  abbrev pub unformatted : ℕ → Bytes → Bytes × Bytes
  unformatted c cs =
      let run = span_bytes is_plain_byte cs in
      if nat_beq c 10 then (bytes "<br>", cs) else (plain_html (c ∷ run.0), run.1)

  abbrev pub enclosed : Format → Option (Bytes × Bytes) → Bytes × Bytes → Bytes × Bytes
  enclosed f none other = other
  enclosed f (some (inside, rest)) other =
      if is_empty inside then other else (f.opens ++ plain_html inside ++ f.closes, rest)

  abbrev pub formatted : Bytes → Option Format → Bytes × Bytes → Bytes × Bytes
  formatted text none other = other
  formatted text (some f) other = enclosed f (cut_bytes f.delimiter (drop f.delimiter text)) other

  -- The loop of `mrkdwn`, on a number of steps. Each takes a byte at least.
  unfoldable pub mrkdwn_steps : ℕ → Bytes → Bytes
  mrkdwn_steps zero text = []
  mrkdwn_steps (suc steps) [] = []
  mrkdwn_steps (suc steps) (c ∷ cs) =
      let step = formatted (c ∷ cs) (format_of (c ∷ cs)) (unformatted c cs) in
      step.0 ++ mrkdwn_steps steps step.1

  -- `mrkdwn`
  unfoldable pub mrkdwn : Bytes → Bytes
  mrkdwn text = mrkdwn_steps (length text) text

  abbrev pub is_token_byte : ℕ → Bool
  is_token_byte c = not (nat_beq c b'<' || nat_beq c b'>')

  abbrev pub token_end : Bytes × Bytes → Option (Bytes × Bytes)
  token_end (token, []) = none
  token_end (token, c ∷ rest) =
      if not (is_empty token) && nat_beq c b'>' then some (token, rest) else none

  -- A match of `angleToken` at the beginning of a text: the token, and what is behind.
  abbrev pub token_at : Bytes → Option (Bytes × Bytes)
  token_at [] = none
  token_at (c ∷ cs) = if nat_beq c b'<' then token_end (span_bytes is_token_byte cs) else none

  abbrev pub onto_text : ℕ → Bytes × Option (Bytes × Bytes) → Bytes × Option (Bytes × Bytes)
  onto_text c (text, found) = (c ∷ text, found)

  abbrev pub found_or :
      Option (Bytes × Bytes) → Bytes × Option (Bytes × Bytes) → Bytes × Option (Bytes × Bytes)
  found_or none later = later
  found_or (some t) later = ([], some t)

  -- The text before the first match, and the match.
  unfoldable pub next_token : Bytes → Bytes × Option (Bytes × Bytes)
  next_token [] = ([], none)
  next_token (c ∷ cs) = found_or (token_at (c ∷ cs)) (onto_text c (next_token cs))

  abbrev pub label_or : Option (Bytes × Bytes) → Bytes → Bytes
  label_or none name = name
  label_or (some (target, label)) name = label

  abbrev pub target_of : Bytes → Option (Bytes × Bytes) → Bytes
  target_of token none = token
  target_of token (some (target, label)) = target

  abbrev pub differs : Option (Bytes × Bytes) → Bytes → Bool
  differs none name = false
  differs (some (target, label)) name = not (bytes_beq label name)

  -- What a token becomes.
  unfoldable pub token_html : Bytes → Bytes
  token_html token =
      let parts = cut_bytes (bytes "|") token in
      let target = target_of token parts in
      let name = drop (bytes "@") target in
      if starts_with (bytes "@") target
      then escape_html (bytes "@" ++ label_or parts name)
        ++ (if differs parts name then bytes " (" ++ escape_html name ++ bytes ")" else [])
      else if starts_with (bytes "#") target
      then escape_html (bytes "#" ++ label_or parts name)
      else if bytes_beq target (bytes "!here")
          || bytes_beq target (bytes "!channel")
          || bytes_beq target (bytes "!everyone")
      then escape_html (bytes "@" ++ name)
      else if starts_with (bytes "!subteam^") target
      then escape_html (label_or parts (drop (bytes "!subteam^") target))
      else if safe_url (l.unescape target)
      then bytes "<a href=\""
        ++ plain_html target
        ++ bytes "\">"
        ++ plain_html (label_or parts target)
        ++ bytes "</a>"
      else escape_html (bytes "<" ++ token ++ bytes ">")

  abbrev pub then_html : (Bytes → Bytes) → Bytes × Option (Bytes × Bytes) → Bytes
  then_html rest (text, none) = mrkdwn text
  then_html rest (text, some (token, behind)) = mrkdwn text ++ token_html token ++ rest behind

  -- The loop of `slackHTML`, on a number of tokens.
  unfoldable pub html_from : ℕ → Bytes → Bytes
  html_from zero text = mrkdwn text
  html_from (suc tokens) text = then_html (html_from tokens) (next_token text)

  -- `slackHTML`
  unfoldable pub slack_html : Bytes → Bytes
  slack_html text = html_from (length text) text
