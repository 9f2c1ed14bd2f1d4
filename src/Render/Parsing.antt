-- ===== src/Render/Parsing.antt =====
-- internal/render/render.go, `Parse`: the request that a message makes of the bot.
pub mod Results
pub mod Requests
pub mod Links
use slackbot_hubspot.Base.{
  String, Bool, true, false, not, ◌&&◌, ◌||◌, Option, none, some, List, [], ◌∷◌, ◌==◌, is_set,
  if◌then◌else◌,
}
use slackbot_hubspot.Base.Texts.{
  trim_left, trim_right, trim_space, has_prefix, trim_prefix, fields, split,
}
use slackbot_hubspot.Front.Handler.{Parsed}
use slackbot_hubspot.Render.Tokens.{
  Url, is_digits, unmentioned, invalid, ticket, Place, find_mention, command_word, links,
  is_trailing, is_slash, is_hubspot, path_ticket,
}

-- Whether a link that names a ticket breaks the rules, given the ticket that was found before.
abbrev pub breaks_rules : String → Url → String × String → String → Bool
breaks_rules account_id u (account, id) found =
    not (u.scheme == "https")
    || u.has_user
    || is_set u.port
    || not (account == account_id)
    || not (is_digits id)
    || is_set found

-- `strings.Split(strings.Trim(u.Path, "/"), "/")`
abbrev pub parts : Url → List String
parts u = split "/" (trim_left is_slash (trim_right is_slash u.path))

module _ (parse_url : String → Option Url) (account_id : String) where
  -- What a link adds to the ticket that was found before: nothing, or a ticket, or an error.
  unfoldable pub link_ticket : Option Url → String → Option String
  link_ticket none found = some found
  link_ticket (some u) found =
      if not (is_hubspot u.hostname)
      then some found
      else if breaks_rules account_id u (path_ticket (parts u)) found
      then none
      else some (path_ticket (parts u)).1

  abbrev pub then_follow : (String → Option String) → Option String → Option String
  then_follow rest none = none
  then_follow rest (some id) = rest id

  -- The loop over the links; none is an invalid request.
  unfoldable pub follow : List String → String → Option String
  follow [] found = some found
  follow (l ∷ ls) found =
      then_follow (follow ls) (link_ticket (parse_url (trim_right is_trailing l)) found)

  abbrev pub linked : Bool → Option String → Parsed
  linked leads none = invalid
  linked leads (some id) = if not (is_set id) && leads then invalid else ticket id

  -- The end of `Parse`: the links behind the mention.
  abbrev pub parse_links : Bool → String → Parsed
  parse_links leads rest = linked leads (follow (links 0 rest) "")

  abbrev pub is_link : String → Bool
  is_link word =
      has_prefix "https://" (trim_prefix "<" word) || has_prefix "http://" (trim_prefix "<" word)

  abbrev pub is_alone : List String → Bool
  is_alone [] = true
  is_alone (w ∷ ws) = false

  abbrev pub no_command : Bool → String → String → List String → Parsed
  no_command leads rest word others =
      if is_digits word
      then (if is_alone others then ticket word else invalid)
      else if leads && not (is_link word)
      then invalid
      else parse_links leads rest

  abbrev pub command_or : List String → Parsed → Option String → Parsed
  command_or others rest none = rest
  command_or others rest (some c) = record {
    command = c;
    invalid = not (is_alone others);
    mentioned = true;
    ticket_id = "";
  }

  -- The words behind the mention.
  unfoldable pub parse_words : Bool → String → List String → Parsed
  parse_words leads rest [] = parse_links leads rest
  parse_words leads rest (word ∷ others) =
      command_or others (no_command leads rest word others) (command_word word)

  abbrev pub parse_place : Option Place → Parsed
  parse_place none = unmentioned
  parse_place (some p) = let rest = trim_space p.rest in parse_words p.leads rest (fields rest)

  -- `Parse`
  unfoldable pub parse : String → String → Parsed
  parse bot_user_id text = parse_place (find_mention bot_user_id 0 true text)
