-- ===== src/Base/Bytes.antt =====
-- Go strings seen as bytes: the UTF-8 encoding of a text, and the order of byte sequences.
pub mod Order
use Prim.Native.Char.{code}
use Prim.Native.Nat.{ℕ, zero, suc, ◌+◌, ◌/◌, ◌%◌}
use Prim.Native.String.{String}
use mathlib.Core.Bool.{Bool, true, false, ◌&&◌}
use mathlib.Core.List.{List, [], ◌∷◌, ◌++◌}
use slackbot_hubspot.Base.Tests.{ltb, nat_beq, if◌then◌else◌}

-- The bytes of one code point.
unfoldable pub utf8 : ℕ → List ℕ
utf8 c =
    if ltb c 0x80
    then c ∷ []
    else if ltb c 0x800
    then (0xc0 + c / 64) ∷ (0x80 + c % 64) ∷ []
    else if ltb c 0x10000
    then (0xe0 + c / 4096) ∷ (0x80 + c / 64 % 64) ∷ (0x80 + c % 64) ∷ []
    else (0xf0 + c / 262144) ∷ (0x80 + c / 4096 % 64) ∷ (0x80 + c / 64 % 64) ∷ (0x80 + c % 64) ∷ []

-- `[]byte(s)`
unfoldable pub bytes : String → List ℕ
unfolding utf8
bytes String.[] = []
bytes (String.◌∷◌ c s) = utf8 (code c) ++ bytes s

-- `a < b` of byte strings.
unfoldable pub bytes_ltb : List ℕ → List ℕ → Bool
bytes_ltb [] [] = false
bytes_ltb [] (b ∷ bs) = true
bytes_ltb (a ∷ as') [] = false
bytes_ltb (a ∷ as') (b ∷ bs) =
    let rest = bytes_ltb as' bs in if ltb a b then true else if ltb b a then false else rest

-- `a == b` of byte strings.
abbrev pub bytes_beq : List ℕ → List ℕ → Bool
bytes_beq [] [] = true
bytes_beq (a ∷ xs) (b ∷ ys) = nat_beq a b && bytes_beq xs ys
bytes_beq _ _ = false

-- Whether a byte string begins with another.
abbrev pub starts_with : List ℕ → List ℕ → Bool
starts_with [] bs = true
starts_with (c ∷ cs) [] = false
starts_with (c ∷ cs) (b ∷ bs) = nat_beq c b && starts_with cs bs

-- The digits of a number before a text; the first argument bounds their count.
abbrev pub decimal_onto : ℕ → ℕ → List ℕ → List ℕ
decimal_onto zero n tail = tail
decimal_onto (suc fuel) n tail =
    let rest = decimal_onto fuel (n / 10) ((b'0' + n % 10) ∷ tail) in
    if ltb n 10 then (b'0' + n) ∷ tail else rest

-- `%d`
unfoldable pub decimal : ℕ → List ℕ
decimal n = decimal_onto (suc n) n []
