-- ===== src/Render/Parsing/Results.antt =====
-- internal/render/render.go, `Parse`: which results there are.
use slackbot_hubspot.Base.{
  ◌≡◌, refl, ◌⊎◌, inl, inr, String, Bool, true, false, not, ◌&&◌, Option, none, some, List, [], ◌∷◌,
  is_set, arith, if_rule,
}
use slackbot_hubspot.Front.Handler.{Parsed}
use slackbot_hubspot.Base.Texts.{trim_right, trim_space, fields}
use slackbot_hubspot.Render.Tokens.{
  Url, is_digits, unmentioned, invalid, ticket, Place, find_mention, command_word, links,
  is_trailing, path_ticket, is_hubspot,
}
use slackbot_hubspot.Render.Parsing.{
  parts, breaks_rules, link_ticket, then_follow, follow, is_link, command_or, linked, parse_links,
  is_alone, no_command, parse_words, parse_place, parse,
}

-- The results of a parse: no mention, an invalid request, a command, with words behind it or not,
-- or a mention with a ticket, whose ID is of digits, or with none.
pub data IsResult : Parsed → Type 0 where
  not_mentioned : IsResult unmentioned
  is_invalid : IsResult invalid
  commands :
      (word : String) (c : String) (bad : Bool)
      → command_word word ≡ some c
      → IsResult (record { command = c; invalid = bad; mentioned = true; ticket_id = "" })
  mentions : (id : String) → (is_set id ≡ false) ⊎ (is_digits id ≡ true) → IsResult (ticket id)

module _ (parse_url : String → Option Url) (account_id : String) where
  abbrev OkTicket : Option String → Type 0
  OkTicket none = Unit {0}
  OkTicket (some id) = (is_set id ≡ false) ⊎ (is_digits id ≡ true)

  breaks_rules-is_digits :
      (u : Url) (found : String × String) (before : String)
      → breaks_rules account_id u found before ≡ false
      → is_digits found.1 ≡ true
  breaks_rules-is_digits u (account, id) before h = ground arith

  link_ticket-OkTicket :
      (u : Option Url) (found : String)
      → OkTicket (some found)
      → OkTicket (link_ticket parse_url account_id u found)
  unfolding link_ticket
  link_ticket-OkTicket none found h = h
  link_ticket-OkTicket (some u) found h =
      if_rule OkTicket (not (is_hubspot u.hostname)) _ _ (λ other. h)
        (λ ours.
          if_rule OkTicket (breaks_rules account_id u (path_ticket (parts u)) found) _ _ (λ bad. tt)
            (λ good. inr (breaks_rules-is_digits u (path_ticket (parts u)) found good)))

  follow-OkTicket :
      (ls : List String) (found : String)
      → OkTicket (some found)
      → OkTicket (follow parse_url account_id ls found)
  unfolding follow
  follow-OkTicket [] found h = h
  follow-OkTicket (l ∷ ls) found h =
      bind (link_ticket parse_url account_id (parse_url (trim_right is_trailing l)) found)
        (link_ticket-OkTicket (parse_url (trim_right is_trailing l)) found h) (follow-OkTicket ls)
    where
      bind :
          (o : Option String)
          → OkTicket o
          → ((id : String) → OkTicket (some id) → OkTicket (follow parse_url account_id ls id))
          → OkTicket (then_follow parse_url account_id (follow parse_url account_id ls) o)
      bind none h rest = h
      bind (some id) h rest = rest id h

  linked-IsResult :
      (leads : Bool) (o : Option String)
      → OkTicket o
      → IsResult (linked parse_url account_id leads o)
  linked-IsResult leads none h = is_invalid
  linked-IsResult leads (some id) h =
      if_rule IsResult (not (is_set id) && leads) _ _ (λ nothing. is_invalid)
        (λ found. mentions id h)

  parse_links-IsResult :
      (leads : Bool) (rest : String) → IsResult (parse_links parse_url account_id leads rest)
  parse_links-IsResult leads rest =
      linked-IsResult leads (follow parse_url account_id (links 0 rest) "")
        (follow-OkTicket (links 0 rest) "" (inl refl))

  no_command-IsResult :
      (leads : Bool) (rest word : String) (others : List String)
      → IsResult (no_command parse_url account_id leads rest word others)
  no_command-IsResult leads rest word others =
      if_rule IsResult (is_digits word) _ _
        (λ digits.
          if_rule IsResult (is_alone parse_url account_id others) _ _
            (λ alone. mentions word (inr digits)) (λ more. is_invalid))
        (λ words.
          if_rule IsResult (leads && not (is_link parse_url account_id word)) _ _
            (λ bad. is_invalid) (λ good. parse_links-IsResult leads rest))

  parse_words-IsResult :
      (leads : Bool) (rest : String) (words : List String)
      → IsResult (parse_words parse_url account_id leads rest words)
  unfolding parse_words
  parse_words-IsResult leads rest [] = parse_links-IsResult leads rest
  parse_words-IsResult leads rest (word ∷ others) = with_command (command_word word) refl
    where
      with_command :
          (o : Option String)
          → command_word word ≡ o
          → IsResult (
              command_or parse_url account_id others
                (no_command parse_url account_id leads rest word others)
                o)
      with_command none e = no_command-IsResult leads rest word others
      with_command (some c) e = commands word c (not (is_alone parse_url account_id others)) e

  -- A parse finds no mention, an invalid request, one of the commands, or a mention with or without
  -- a ticket: never a command with a ticket, an invalid request with a ticket, or a ticket whose ID
  -- is not of digits.
  pub parse-IsResult : (bot text : String) → IsResult (parse parse_url account_id bot text)
  unfolding parse
  parse-IsResult bot text = at_place (find_mention bot 0 true text)
    where
      at_place : (o : Option Place) → IsResult (parse_place parse_url account_id o)
      at_place none = not_mentioned
      at_place (some p) =
          parse_words-IsResult p.leads (trim_space p.rest) (fields (trim_space p.rest))
