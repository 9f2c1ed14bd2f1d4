-- ===== src/Base/Html/Laws.antt =====
-- A byte string holds what stands inside it.
use Prim.Native.Nat.{ℕ}
use mathlib.Core.Path.{◌≡◌, refl}
use mathlib.Core.Bool.{true}
use mathlib.Core.List.{List, [], ◌∷◌, ◌++◌}
use native.Mathlib.Omega.{arith}
use slackbot_hubspot.Base.Bytes.{starts_with}
use slackbot_hubspot.Base.Html.{has_infix}

pub starts_with-append : (xs ys : List ℕ) → starts_with xs (xs ++ ys) ≡ true
starts_with-append [] ys = refl
starts_with-append (x ∷ xs) ys = ground (arith, starts_with-append xs ys)

has_infix_prefix : (part behind : List ℕ) → has_infix part (part ++ behind) ≡ true
unfolding has_infix
has_infix_prefix [] [] = refl
has_infix_prefix [] (c ∷ behind) = refl
has_infix_prefix (c ∷ part) behind = ground (arith, starts_with-append (c ∷ part) behind)

pub has_infix-append :
    (before part behind : List ℕ) → has_infix part (before ++ part ++ behind) ≡ true
unfolding has_infix
has_infix-append [] part behind = has_infix_prefix part behind
has_infix-append (c ∷ before) part behind = ground (arith, has_infix-append before part behind)
