-- ===== src/Front/Timestamps.antt =====
-- internal/httpapi/server.go, `slackTimestamp`: ^[0-9]{1,16}\.[0-9]{6}$
use slackbot_hubspot.Base.{
  ℕ, ◌+◌, String, Bool, false, ◌&&◌, List, [], ◌∷◌, leb, nat_beq, if◌then◌else◌,
}
use slackbot_hubspot.Base.Bytes.{bytes}
use slackbot_hubspot.Store.Timestamps.{is_digit}

-- Digits behind the point, of which `n` were seen.
unfoldable pub fraction : ℕ → List ℕ → Bool
fraction n [] = nat_beq n 6
fraction n (c ∷ cs) = is_digit c && fraction (n + 1) cs

-- Digits before the point, of which `n` were seen.
unfoldable pub whole : ℕ → List ℕ → Bool
unfolding fraction
whole n [] = false
whole n (c ∷ cs) =
    let rest = whole (n + 1) cs in
    if is_digit c then rest else nat_beq c b'.' && leb 1 n && leb n 16 && fraction 0 cs

unfoldable pub is_slack_timestamp : String → Bool
unfolding whole bytes
is_slack_timestamp s = whole 0 (bytes s)
