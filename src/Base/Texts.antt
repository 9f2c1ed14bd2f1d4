-- ===== src/Base/Texts.antt =====
-- Packages strings and unicode, on texts seen as lists of characters.
pub mod Words
use Prim.Native.Char.{Char, code}
use Prim.Native.Nat.{ℕ, zero, suc, ◌+◌}
use Prim.Native.String.{String}
use mathlib.Core.Bool.{Bool, true, false, not, ◌&&◌, ◌||◌}
use mathlib.Core.List.{List, [], ◌∷◌}
use mathlib.Core.Option.{Option, none, some}
use slackbot_hubspot.Base.Tests.{leb, nat_beq, is_set, if◌then◌else◌}

-- `unicode.IsSpace`
unfoldable pub is_space : Char → Bool
is_space c =
    let n = code c in
    (leb 9 n && leb n 13)
    || nat_beq n 32
    || nat_beq n 0x85
    || nat_beq n 0xa0
    || nat_beq n 0x1680
    || (leb 0x2000 n && leb n 0x200a)
    || (leb 0x2028 n && leb n 0x2029)
    || nat_beq n 0x202f
    || nat_beq n 0x205f
    || nat_beq n 0x3000

abbrev pub is_digit : Char → Bool
is_digit c = leb b'0' (code c) && leb (code c) b'9'

abbrev pub is_upper : Char → Bool
is_upper c = leb b'A' (code c) && leb (code c) b'Z'

-- Whether all characters pass a test.
unfoldable pub every : (Char → Bool) → String → Bool
every p String.[] = true
every p (String.◌∷◌ c s) = p c && every p s

abbrev pub size : String → ℕ
size String.[] = 0
size (String.◌∷◌ c s) = suc (size s)

-- `s + t`
unfoldable pub plus : String → String → String
plus String.[] t = t
plus (String.◌∷◌ c s) t = String.◌∷◌ c (plus s t)

-- `strings.TrimLeftFunc`
unfoldable pub trim_left : (Char → Bool) → String → String
trim_left p String.[] = String.[]
trim_left p (String.◌∷◌ c s) = let rest = trim_left p s in if p c then rest else String.◌∷◌ c s

abbrev pub onto_kept : (Char → Bool) → Char → String → String
onto_kept p c String.[] = if p c then String.[] else String.◌∷◌ c String.[]
onto_kept p c (String.◌∷◌ d s) = String.◌∷◌ c (String.◌∷◌ d s)

-- `strings.TrimRightFunc`
unfoldable pub trim_right : (Char → Bool) → String → String
trim_right p String.[] = String.[]
trim_right p (String.◌∷◌ c s) = onto_kept p c (trim_right p s)

-- `strings.TrimSpace`
abbrev pub trim_space : String → String
trim_space s = trim_left is_space (trim_right is_space s)

-- The rest of a text behind a prefix.
unfoldable pub behind : String → String → Option String
behind String.[] s = some s
behind (String.◌∷◌ c p) String.[] = none
behind (String.◌∷◌ c p) (String.◌∷◌ d s) =
    let rest = behind p s in if nat_beq (code c) (code d) then rest else none

abbrev pub has_prefix : String → String → Bool
has_prefix p s = elim (behind p s) [ none ↦ false | some t ↦ true ]

-- `strings.TrimPrefix`
abbrev pub trim_prefix : String → String → String
trim_prefix p s = elim (behind p s) [ none ↦ s | some t ↦ t ]

abbrev pub onto_set : String → List String → List String
onto_set s ss = if is_set s then s ∷ ss else ss

-- The word that a text begins with, and the words behind it.
unfoldable pub words_from : String → String × List String
words_from String.[] = (String.[], [])
words_from (String.◌∷◌ c s) =
    let rest = words_from s in
    if is_space c then (String.[], onto_set rest.0 rest.1) else (String.◌∷◌ c rest.0, rest.1)

-- `strings.Fields`
unfoldable pub fields : String → List String
fields s = let rest = words_from s in onto_set rest.0 rest.1

-- `strings.Split` by one character.
unfoldable pub split_from : Char → String → String × List String
split_from c String.[] = (String.[], [])
split_from c (String.◌∷◌ d s) =
    let rest = split_from c s in
    if nat_beq (code c) (code d)
    then (String.[], rest.0 ∷ rest.1)
    else (String.◌∷◌ d rest.0, rest.1)

abbrev pub split : Char → String → List String
split c s = let rest = split_from c s in rest.0 ∷ rest.1

-- The longest beginning whose characters pass a test, and what is behind it.
unfoldable pub span : (Char → Bool) → String → String × String
span p String.[] = (String.[], String.[])
span p (String.◌∷◌ c s) =
    let rest = span p s in
    if p c then (String.◌∷◌ c rest.0, rest.1) else (String.[], String.◌∷◌ c s)

abbrev pub onto_before : Char → Option (String × String) → Option (String × String)
onto_before c none = none
onto_before c (some (s, t)) = some (String.◌∷◌ c s, t)

abbrev pub cut_at : Option String → Option (String × String) → Option (String × String)
cut_at none rest = rest
cut_at (some t) rest = some (String.[], t)

-- What is before and behind the first place of a text, which `strings.Index` finds.
unfoldable pub cut : String → String → Option (String × String)
cut token String.[] = none
cut token (String.◌∷◌ c s) = cut_at (behind token (String.◌∷◌ c s)) (onto_before c (cut token s))

abbrev pub is_found : Option (String × String) → Bool
is_found none = false
is_found (some x) = true

-- `strings.Contains`
abbrev pub contains : String → String → Bool
contains token s = is_found (cut token s)
