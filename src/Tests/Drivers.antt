-- ===== src/Tests/Drivers.antt =====
-- Storage drivers by name, and a signed request.
use slackbot_hubspot.Base.{refl, ◌≡◌, some, [], ◌∷◌, String, Option, ◌*◌, arith, ℕ}
use slackbot_hubspot.Base.Bytes.{bytes, utf8}
use slackbot_hubspot.Domain.{ℤ, pos, Bytes}
use slackbot_hubspot.Registry.{text, mapping, Config, nil, entry}
use slackbot_hubspot.Front.Authentication.{
  read, denied, authenticate_slack, is_recent, replay_refused,
}

abbrev settings : Config
settings = entry "path" (text "bot.db") nil

abbrev config : Config
config = entry "driver" (text "sqlite") (entry "sqlite" (mapping settings) nil)

-- A factory that keeps what it is called with.
abbrev keep : ℕ → Config → ℕ × Config
keep f c = (f, c)

-- Every text is read as one second after 1970, and every message has the signature "s".
abbrev one_second : String → Option ℤ
one_second s = some (pos 1)

abbrev sign : String → Bytes → Bytes
sign secret message = b's' ∷ []

replay_refused_example :
    authenticate_slack one_second sign "secret"
      (62135597500 * 1000000000)
      "1"
      (b'v' ∷ b'0' ∷ b'=' ∷ b's' ∷ [])
      (read [])
    ≡ denied 401
replay_refused_example =
    replay_refused one_second sign "secret" "1" (62135596801 * 1000000000)
      (62135597500 * 1000000000) (b'v' ∷ b'0' ∷ b'=' ∷ b's' ∷ []) (read [])
      (unfold authenticate_slack is_recent bytes utf8 in refl) (omega arith)
