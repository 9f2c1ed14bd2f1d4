-- ===== src/Render/Parsing/Requests.antt =====
-- internal/render/render.go, `Parse`: a request that is written as the help says is read.
use Prim.Native.Char.{Char}
use slackbot_hubspot.Base.{
  ◌≡◌, refl, ap, ◌∙◌, String, true, false, Option, none, some, [], ◌∷◌, is_set, arith, eq_self,
}
use slackbot_hubspot.Base.Texts.{is_digit, is_space, every, plus, behind, fields}
use slackbot_hubspot.Base.Texts.Words.{
  is_solid, span-plus, trim_space_word, fields_word, every_mono, is_digit-is_solid,
}
use slackbot_hubspot.Render.Tokens.{
  Url, is_name, is_digits, ticket, mention_at, find_mention, command_word, lowers_to,
}
use slackbot_hubspot.Render.Parsing.{parse_words, parse_place, parse}

-- A mention of a user.
abbrev mention : String → String → String
mention user rest = plus "<@" (plus user (String.◌∷◌ ">" rest))

mention_at-mention :
    (user rest : String)
    → is_set user ≡ true
    → every is_name user ≡ true
    → mention_at (mention user rest) ≡ some (record { user = user; rest = rest })
unfolding mention_at plus behind
mention_at-mention user rest set name = rw (span-plus is_name user ">" rest name refl, set) refl

find_mention-mention :
    (user rest : String)
    → is_set user ≡ true
    → every is_name user ≡ true
    → find_mention user 0 true (mention user rest) ≡ some (record { leads = true; rest = rest })
unfolding find_mention plus
find_mention-mention user rest set name =
    rw (mention_at-mention user rest set name, eq_self user) refl

digit-command_word :
    (c : Char) (s : String) → is_digit c ≡ true → command_word (String.◌∷◌ c s) ≡ none
unfolding command_word lowers_to
digit-command_word c s h = ground (arith, h)

module _ (parse_url : String → Option Url) (account_id : String) (user : String)
    (set : is_set user ≡ true) (name : every is_name user ≡ true) where
  -- A mention and one word, by the word alone.
  parse-word :
      (c : Char) (s : String)
      → every is_solid (String.◌∷◌ c s) ≡ true
      → parse parse_url account_id user (mention user (String.◌∷◌ " " (String.◌∷◌ c s)))
        ≡ parse_words parse_url account_id true (String.◌∷◌ c s) (String.◌∷◌ c s ∷ [])
  unfolding parse is_space
  parse-word c s solid =
      let word = String.◌∷◌ c s in
      let rest = String.◌∷◌ " " word in
      let found = find_mention-mention user rest set name in
      let trimmed = trim_space_word " " c s refl solid in
      ap (parse_place parse_url account_id) found
      ∙ ap (λ r. parse_words parse_url account_id true r (fields r)) trimmed
      ∙ ap (parse_words parse_url account_id true word) (fields_word c s solid)

  -- A mention of the bot and a number is a request for the ticket of that number.
  pub ticket_request_read :
      (id : String)
      → is_digits id ≡ true
      → parse parse_url account_id user (plus "<@" (plus user (plus "> " id))) ≡ ticket id
  unfolding parse_words plus every
  ticket_request_read String.[] h = ground (arith, h)
  ticket_request_read (String.◌∷◌ c s) h =
      let digits : every is_digit (String.◌∷◌ c s) ≡ true = ground (arith, h) in
      let solid = every_mono is_digit is_solid (String.◌∷◌ c s) is_digit-is_solid digits in
      let no_command_there = digit-command_word c s (ground (arith, digits)) in
      parse-word c s solid ∙ rw (no_command_there, h) refl

  -- A mention of the bot and one word that is a command is a request for that command.
  pub command_request_read :
      (word command : String)
      → is_set word ≡ true
      → every is_solid word ≡ true
      → command_word word ≡ some command
      → parse parse_url account_id user (plus "<@" (plus user (plus "> " word)))
        ≡ record { command = command; invalid = false; mentioned = true; ticket_id = "" }
  unfolding parse_words plus
  command_request_read String.[] command h solid known = ground (arith, h)
  command_request_read (String.◌∷◌ c s) command h solid known = parse-word c s solid ∙ rw known refl
