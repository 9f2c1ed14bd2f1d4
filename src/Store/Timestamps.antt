-- ===== src/Store/Timestamps.antt =====
-- internal/store/records.go, `newer`: the order of Slack timestamps.
--
-- `big.Rat.SetString` is modelled on decimals, digits with at most one point among or around them:
-- all that `^[0-9]{1,16}\.[0-9]{6}$` of the HTTP front end lets through. Signs, exponents,
-- fractions and base prefixes, which it also reads, are taken as no number here.
use slackbot_hubspot.Base.{
  ℕ, ◌+◌, ◌-◌, ◌*◌, String, Bool, true, false, ◌&&◌, Option, none, some, List, [], ◌∷◌, ◌==◌, ltb,
  leb, nat_beq, is_set, if◌then◌else◌,
}
use slackbot_hubspot.Base.Bytes.{bytes, bytes_ltb}

abbrev pub is_digit : ℕ → Bool
is_digit c = leb b'0' c && leb c b'9'

-- A rational number: numerator and denominator.
abbrev pub Rat : Type 0
Rat = ℕ × ℕ

-- The digits behind the point; `seen` tells whether there was a digit.
unfoldable pub scan_fraction : ℕ → ℕ → Bool → List ℕ → Option Rat
scan_fraction n d seen [] = if seen then some (n, d) else none
scan_fraction n d seen (c ∷ cs) =
    let rest = scan_fraction (n * 10 + (c - b'0')) (d * 10) true cs in
    if is_digit c then rest else none

unfoldable pub scan_decimal : ℕ → Bool → List ℕ → Option Rat
unfolding scan_fraction
scan_decimal n seen [] = if seen then some (n, 1) else none
scan_decimal n seen (c ∷ cs) =
    let rest = scan_decimal (n * 10 + (c - b'0')) true cs in
    if is_digit c then rest else if nat_beq c b'.' then scan_fraction n 1 seen cs else none

-- `new(big.Rat).SetString(s)`
unfoldable pub rat : String → Option Rat
unfolding scan_decimal bytes
rat s = scan_decimal 0 false (bytes s)

-- `l.Cmp(r) > 0`
abbrev pub rat_gt : Rat → Rat → Bool
rat_gt (n, d) (m, e) = ltb (m * d) (n * e)

abbrev pub newer_by : Option Rat → Option Rat → String → String → Bool
newer_by (some l) (some r) left right = rat_gt l r
newer_by none _ left right = bytes_ltb (bytes right) (bytes left)
newer_by (some _) none left right = bytes_ltb (bytes right) (bytes left)

unfoldable pub newer : String → String → Bool
unfolding rat
newer left right = if right == "" then is_set left else newer_by (rat left) (rat right) left right
