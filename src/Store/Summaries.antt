-- ===== src/Store/Summaries.antt =====
-- internal/store/records.go, `boundedError`: the summaries of errors that are stored.
--
-- `strings.TrimSpace` removes the white space of Unicode, whose characters have one to three
-- bytes in UTF-8.
pub mod Bounds
use slackbot_hubspot.Base.{
  ℕ, zero, suc, Bool, true, false, ◌&&◌, ◌||◌, List, [], ◌∷◌, length, take, ltb, leb, nat_beq,
  if◌then◌else◌,
}
use mathlib.Core.List.{reverse}
use slackbot_hubspot.Domain.{Bytes}

-- Tab, line feed, vertical tab, form feed, carriage return, space.
unfoldable pub is_space1 : ℕ → Bool
is_space1 a = (leb 9 a && leb a 13) || nat_beq a 32

-- U+0085 and U+00A0.
unfoldable pub is_space2 : ℕ → ℕ → Bool
is_space2 a b = nat_beq a 0xc2 && (nat_beq b 0x85 || nat_beq b 0xa0)

-- U+1680, U+2000 to U+200A, U+2028, U+2029, U+202F, U+205F, U+3000.
unfoldable pub is_space3 : ℕ → ℕ → ℕ → Bool
is_space3 a b c =
    (nat_beq a 0xe1 && nat_beq b 0x9a && nat_beq c 0x80)
    || (nat_beq a 0xe2
        && ((nat_beq b 0x80
              && ((leb 0x80 c && leb c 0x8a) || nat_beq c 0xa8 || nat_beq c 0xa9 || nat_beq c 0xaf))
            || (nat_beq b 0x81 && nat_beq c 0x9f)))
    || (nat_beq a 0xe3 && nat_beq b 0x80 && nat_beq c 0x80)

-- White space at the front.
unfoldable pub trim_left : Bytes → Bytes
unfolding is_space1 is_space2 is_space3
trim_left [] = []
trim_left (a ∷ []) = if is_space1 a then [] else a ∷ []
trim_left (a ∷ b ∷ []) = elim (is_space1 a) [
  | true ↦ trim_left (b ∷ [])
  | false ↦ if is_space2 a b then [] else a ∷ b ∷ []
]
trim_left (a ∷ b ∷ c ∷ rest) = elim (is_space1 a) [
  | true ↦ trim_left (b ∷ c ∷ rest)
  | false ↦ elim (is_space2 a b) [
    | true ↦ trim_left (c ∷ rest)
    | false ↦ elim (is_space3 a b c) [ true ↦ trim_left rest | false ↦ a ∷ b ∷ c ∷ rest ]
  ]
]

-- White space at the end, over the reversed bytes.
unfoldable pub trim_reversed : Bytes → Bytes
unfolding is_space1 is_space2 is_space3
trim_reversed [] = []
trim_reversed (a ∷ []) = if is_space1 a then [] else a ∷ []
trim_reversed (a ∷ b ∷ []) = elim (is_space1 a) [
  | true ↦ trim_reversed (b ∷ [])
  | false ↦ if is_space2 b a then [] else a ∷ b ∷ []
]
trim_reversed (a ∷ b ∷ c ∷ rest) = elim (is_space1 a) [
  | true ↦ trim_reversed (b ∷ c ∷ rest)
  | false ↦ elim (is_space2 b a) [
    | true ↦ trim_reversed (c ∷ rest)
    | false ↦ elim (is_space3 c b a) [ true ↦ trim_reversed rest | false ↦ a ∷ b ∷ c ∷ rest ]
  ]
]

-- `strings.TrimSpace`
unfoldable pub trim_space : Bytes → Bytes
unfolding trim_left trim_reversed
trim_space value = reverse (trim_reversed (reverse (trim_left value)))

abbrev pub max_summary : ℕ
max_summary = 1024

-- `value[:1024]` cuts bytes, not characters.
abbrev pub cut : ℕ → Bytes → Bytes
cut limit value = if ltb limit (length value) then take limit value else value

-- `boundedError`
unfoldable pub bounded_error : Bytes → Bytes
bounded_error value = cut max_summary (trim_space value)
