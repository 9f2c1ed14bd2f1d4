-- ===== src/Render/Tokens.antt =====
-- internal/render/render.go, `Parse`: the mentions, commands and links in a message. The regular
-- expressions are scanners here, and a text is the list of its characters. `url.Parse` is an
-- argument, of which the parts of a URL that are looked at come back.
use Prim.Native.Char.{Char, code}
use slackbot_hubspot.Base.{
  ℕ, zero, suc, ◌+◌, ◌-◌, String, Bool, true, false, not, ◌&&◌, ◌||◌, Option, none, some, List, [],
  ◌∷◌, ◌==◌, leb, nat_beq, is_set, if◌then◌else◌,
}
use slackbot_hubspot.Base.Texts.{plus, is_space, is_digit, is_upper, every, size, behind, span}
use slackbot_hubspot.Front.Handler.{Parsed}

-- What `url.Parse` finds.
pub record Url : Type 0 where
  pub scheme : String
  pub has_user : Bool
  pub hostname : String
  pub port : String
  pub path : String

abbrev pub is_digits : String → Bool
is_digits s = is_set s && every is_digit s

abbrev pub unmentioned : Parsed
unmentioned = record { command = ""; invalid = false; mentioned = false; ticket_id = "" }

abbrev pub invalid : Parsed
invalid = record { command = ""; invalid = true; mentioned = true; ticket_id = "" }

abbrev pub ticket : String → Parsed
ticket id = record { command = ""; invalid = false; mentioned = true; ticket_id = id }

-- A match of `mentionToken`: the user's ID, and the text behind it.
pub record Mention : Type 0 where
  pub user : String
  pub rest : String

abbrev pub is_name : Char → Bool
is_name c = is_upper c || is_digit c

abbrev pub is_label : Char → Bool
is_label c = not (nat_beq (code c) b'>')

-- The end of a mention, behind the user's ID.
abbrev pub mention_end : String → String → Option Mention
mention_end user String.[] = none
mention_end user (String.◌∷◌ c s) =
    if nat_beq (code c) b'>'
    then some (record { user = user; rest = s })
    else if nat_beq (code c) b'|'
    then elim (behind ">" (span is_label s).1) [
      | none ↦ none
      | some t ↦ some (record { user = user; rest = t })
    ]
    else none

abbrev pub mention_name : String × String → Option Mention
mention_name (user, s) = if is_set user then mention_end user s else none

-- A match at the beginning of a text.
unfoldable pub mention_at : String → Option Mention
mention_at s = elim (behind "<@" s) [ none ↦ none | some t ↦ mention_name (span is_name t) ]

-- Where the bot is mentioned first: whether only white space is before it, and what is behind.
pub record Place : Type 0 where
  pub leads : Bool
  pub rest : String

-- How many characters behind the first one a match takes.
abbrev pub skipped : String → Option Mention → ℕ
skipped s none = 0
skipped s (some m) = size s - size m.rest

abbrev pub found_or : String → Bool → Option Mention → Option Place → Option Place
found_or bot leads none rest = rest
found_or bot leads (some m) rest =
    if m.user == bot then some (record { leads = leads; rest = m.rest }) else rest

-- The first match that is the bot's; matches do not overlap, and `n` characters are still taken by
-- the last one. `leads` tells that all characters so far were white space.
unfoldable pub find_mention : String → ℕ → Bool → String → Option Place
find_mention bot n leads String.[] = none
find_mention bot (suc n) leads (String.◌∷◌ c s) = find_mention bot n (leads && is_space c) s
find_mention bot zero leads (String.◌∷◌ c s) =
    let m = mention_at (String.◌∷◌ c s) in
    let rest = find_mention bot (skipped s m) (leads && is_space c) s in found_or bot leads m rest

-- `unicode.ToLower`, as far as what it gives is ASCII.
abbrev pub lower : ℕ → ℕ
lower n =
    if leb b'A' n && leb n b'Z'
    then n + 32
    else if nat_beq n 0x130
    then b'i'
    else if nat_beq n 0x212a
    then b'k'
    else n

-- `strings.ToLower(s) == t`, for an ASCII text `t` in lower case.
unfoldable pub lowers_to : String → String → Bool
lowers_to String.[] String.[] = true
lowers_to String.[] (String.◌∷◌ d t) = false
lowers_to (String.◌∷◌ c s) String.[] = false
lowers_to (String.◌∷◌ c s) (String.◌∷◌ d t) = nat_beq (lower (code c)) (code d) && lowers_to s t

abbrev pub one_of : String → List String → Option String
one_of s [] = none
one_of s (t ∷ ts) = let rest = one_of s ts in if lowers_to s t then some t else rest

-- The command that a word is.
unfoldable pub command_word : String → Option String
command_word s = one_of s ("help" ∷ "resume" ∷ "status" ∷ "sync" ∷ "untrack" ∷ [])

abbrev pub is_link_char : Char → Bool
is_link_char c =
    let n = code c in
    not (
      nat_beq n 9
      || nat_beq n 10
      || nat_beq n 12
      || nat_beq n 13
      || nat_beq n 32
      || nat_beq n b'<'
      || nat_beq n b'>'
      || nat_beq n b'|')

abbrev pub link_behind : String → Option String → Option String
link_behind scheme none = none
link_behind scheme (some t) =
    let host = (span is_link_char t).0 in if is_set host then some (plus scheme host) else none

-- A match of `linkToken` at the beginning of a text.
unfoldable pub link_at : String → Option String
link_at s = elim (link_behind "http://" (behind "http://" s)) [
  | some l ↦ some l
  | none ↦ link_behind "https://" (behind "https://" s)
]

abbrev pub taken : Option String → ℕ
taken none = 0
taken (some l) = size l - 1

abbrev pub onto_found : Option String → List String → List String
onto_found none ls = ls
onto_found (some l) ls = l ∷ ls

-- All links of a text, which do not overlap.
unfoldable pub links : ℕ → String → List String
links n String.[] = []
links (suc n) (String.◌∷◌ c s) = links n s
links zero (String.◌∷◌ c s) = let l = link_at (String.◌∷◌ c s) in onto_found l (links (taken l) s)

-- `strings.TrimRight(raw, ".,)")`
abbrev pub is_trailing : Char → Bool
is_trailing c = nat_beq (code c) b'.' || nat_beq (code c) b',' || nat_beq (code c) b')'

abbrev pub is_slash : Char → Bool
is_slash c = nat_beq (code c) b'/'

abbrev pub is_hubspot : String → Bool
is_hubspot host =
    lowers_to host "app.hubspot.com"
    || lowers_to host "app-eu1.hubspot.com"
    || lowers_to host "app-na2.hubspot.com"

-- The account and the ticket that a path names.
unfoldable pub path_ticket : List String → String × String
path_ticket (a ∷ b ∷ c ∷ d ∷ e ∷ []) =
    if a == "contacts" && c == "record" && d == "0-5" then (b, e) else ("", "")
path_ticket (a ∷ b ∷ c ∷ d ∷ []) =
    if (a == "contacts" || a == "tickets") && c == "ticket" then (b, d) else ("", "")
path_ticket _ = ("", "")
