-- ===== src/Base/Html.antt =====
-- Package html, and `strings.Contains` of byte strings.
pub mod Laws
use mathlib.Core.Option.{Option, none, some}
use Prim.Native.Nat.{ℕ}
use mathlib.Core.Bool.{Bool, true, false, not, ◌||◌}
use mathlib.Core.List.{List, [], ◌∷◌, ◌++◌}
use slackbot_hubspot.Base.Tests.{nat_beq, if◌then◌else◌}
use slackbot_hubspot.Base.Bytes.{bytes, starts_with}

-- `html.EscapeString`
unfoldable pub escape_html : List ℕ → List ℕ
escape_html [] = []
escape_html (c ∷ cs) =
    let rest = escape_html cs in
    if nat_beq c b'&'
    then bytes "&amp;" ++ rest
    else if nat_beq c 39
    then bytes "&#39;" ++ rest
    else if nat_beq c b'<'
    then bytes "&lt;" ++ rest
    else if nat_beq c b'>'
    then bytes "&gt;" ++ rest
    else if nat_beq c 34
    then bytes "&#34;" ++ rest
    else c ∷ rest

unfoldable pub has_infix : List ℕ → List ℕ → Bool
has_infix part [] = starts_with part []
has_infix part (c ∷ cs) = starts_with part (c ∷ cs) || has_infix part cs

abbrev pub onto_bytes : ℕ → Option (List ℕ × List ℕ) → Option (List ℕ × List ℕ)
onto_bytes c none = none
onto_bytes c (some (s, t)) = some (c ∷ s, t)

abbrev pub drop : List ℕ → List ℕ → List ℕ
drop [] bs = bs
drop (p ∷ ps) [] = []
drop (p ∷ ps) (b ∷ bs) = drop ps bs

-- What is before and behind the first place of a byte string that is not empty.
unfoldable pub cut_bytes : List ℕ → List ℕ → Option (List ℕ × List ℕ)
cut_bytes part [] = none
cut_bytes part (c ∷ cs) =
    let rest = onto_bytes c (cut_bytes part cs) in
    if starts_with part (c ∷ cs) then some ([], drop part (c ∷ cs)) else rest

-- The longest beginning whose bytes pass a test, and what is behind it.
unfoldable pub span_bytes : (ℕ → Bool) → List ℕ → List ℕ × List ℕ
span_bytes p [] = ([], [])
span_bytes p (c ∷ cs) =
    let rest = span_bytes p cs in if p c then (c ∷ rest.0, rest.1) else ([], c ∷ cs)
