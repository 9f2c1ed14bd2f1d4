-- ===== src/Base/Urls.antt =====
-- Package net/url: what escapes a part of a path.
use Prim.Native.Nat.{ℕ, ◌+◌, ◌-◌, ◌/◌, ◌%◌}
use mathlib.Core.Bool.{Bool, false, ◌&&◌, ◌||◌}
use mathlib.Core.List.{List, [], ◌∷◌}
use slackbot_hubspot.Base.Tests.{ltb, leb, nat_beq, if◌then◌else◌}
use slackbot_hubspot.Base.Bytes.{bytes}

abbrev pub has_byte : ℕ → List ℕ → Bool
has_byte c [] = false
has_byte c (d ∷ ds) = nat_beq c d || has_byte c ds

-- A byte that `url.PathEscape` keeps.
unfoldable pub is_unescaped : ℕ → Bool
is_unescaped c =
    (leb b'0' c && leb c b'9')
    || (leb b'A' c && leb c b'Z')
    || (leb b'a' c && leb c b'z')
    || has_byte c (bytes "-_.~$&+=:@")

abbrev pub hex_digit : ℕ → ℕ
hex_digit d = if ltb d 10 then b'0' + d else b'A' + (d - 10)

-- `url.PathEscape`
unfoldable pub path_escape : List ℕ → List ℕ
path_escape [] = []
path_escape (c ∷ cs) =
    let rest = path_escape cs in
    if is_unescaped c then c ∷ rest else b'%' ∷ hex_digit (c / 16) ∷ hex_digit (c % 16) ∷ rest
