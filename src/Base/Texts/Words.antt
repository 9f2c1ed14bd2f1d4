-- ===== src/Base/Texts/Words.antt =====
-- Texts without white space are their own words.
use Prim.Native.Char.{Char}
use Prim.Native.String.{String}
use mathlib.Core.Path.{◌≡◌, refl, ap}
use mathlib.Core.Logic.{◌≢◌}
use mathlib.Core.Bool.{Bool, true, false, not}
use mathlib.Core.List.{[], ◌∷◌}
use native.Mathlib.Omega.{arith}
use slackbot_hubspot.Base.Tests.{eq_iff, is_set}
use slackbot_hubspot.Base.Texts.{
  is_space, is_digit, every, plus, trim_left, trim_right, onto_kept, trim_space, words_from, fields,
  span, size,
}

unfoldable pub is_solid : Char → Bool
is_solid c = not (is_space c)

-- The run of a text that passes a test ends at the first character that does not.
pub span-plus :
    (p : Char → Bool) (s : String) (c : Char) (t : String)
    → every p s ≡ true
    → p c ≡ false
    → span p (plus s (String.◌∷◌ c t)) ≡ (s, String.◌∷◌ c t)
unfolding span plus every
span-plus p String.[] c t h k = rw k refl
span-plus p (String.◌∷◌ d s) c t h k =
    let first : p d ≡ true = ground (arith, h) in
    rw (first, span-plus p s c t (ground (arith, h)) k) refl

trim_right_solid : (s : String) → every is_solid s ≡ true → trim_right is_space s ≡ s
unfolding trim_right every is_solid
trim_right_solid String.[] h = refl
trim_right_solid (String.◌∷◌ c String.[]) h = ground (arith, h)
trim_right_solid (String.◌∷◌ c (String.◌∷◌ d s)) h =
    let rest : onto_kept is_space d (trim_right is_space s) ≡ String.◌∷◌ d s =
      trim_right_solid (String.◌∷◌ d s) (ground (arith, h)) in
    rw rest refl

-- A word behind one blank.
pub trim_space_word :
    (b c : Char) (s : String)
    → is_space b ≡ true
    → every is_solid (String.◌∷◌ c s) ≡ true
    → trim_space (String.◌∷◌ b (String.◌∷◌ c s)) ≡ String.◌∷◌ c s
unfolding trim_right trim_left every is_solid
trim_space_word b c s h k =
    let rest : onto_kept is_space c (trim_right is_space s) ≡ String.◌∷◌ c s =
      trim_right_solid (String.◌∷◌ c s) k in
    let solid : is_space c ≡ false = ground (arith, k) in rw (rest, h, solid) refl

words_from_solid : (s : String) → every is_solid s ≡ true → words_from s ≡ (s, [])
unfolding words_from every is_solid
words_from_solid String.[] h = refl
words_from_solid (String.◌∷◌ c s) h =
    let solid : is_space c ≡ false = ground (arith, h) in
    rw (words_from_solid s (ground (arith, h)), solid) refl

pub is_set_cons : (c : Char) (s : String) → is_set (String.◌∷◌ c s) ≡ true
is_set_cons c s = ground (arith, eq_iff (String.◌∷◌ c s) "", longer)
  where
    longer : String.◌∷◌ c s ≢ ""
    longer e = ground (arith, ap size e)

pub fields_word :
    (c : Char) (s : String)
    → every is_solid (String.◌∷◌ c s) ≡ true
    → fields (String.◌∷◌ c s) ≡ String.◌∷◌ c s ∷ []
unfolding fields
fields_word c s h = rw (words_from_solid (String.◌∷◌ c s) h, is_set_cons c s) refl

pub every_mono :
    (p q : Char → Bool) (s : String)
    → ((c : Char) → p c ≡ true → q c ≡ true)
    → every p s ≡ true
    → every q s ≡ true
unfolding every
every_mono p q String.[] f h = refl
every_mono p q (String.◌∷◌ c s) f h =
    let first : p c ≡ true = ground (arith, h) in
    rw (f c first) (every_mono p q s f (ground (arith, h)))

pub is_digit-is_solid : (c : Char) → is_digit c ≡ true → is_solid c ≡ true
unfolding is_space is_solid
is_digit-is_solid c h = ground (arith, h)
