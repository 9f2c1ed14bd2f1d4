-- ===== src/Base/Bytes/Order.antt =====
-- The order of byte sequences is strict.
use Prim.Native.Nat.{ℕ}
use mathlib.Core.Path.{◌≡◌, refl, sym}
use mathlib.Core.Bool.{true, false}
use mathlib.Core.List.{List, [], ◌∷◌}
use native.Mathlib.Omega.{arith}
use slackbot_hubspot.Base.Bytes.{bytes_ltb}

pub bytes_ltb_asymm : (s t : List ℕ) → bytes_ltb s t ≡ true → bytes_ltb t s ≡ false
unfolding bytes_ltb
bytes_ltb_asymm [] [] h = cc
bytes_ltb_asymm [] (b ∷ t) h = ground arith
bytes_ltb_asymm (a ∷ s) [] h = cc
bytes_ltb_asymm (a ∷ s) (b ∷ t) h = ground (arith, bytes_ltb_asymm s t)

pub bytes_ltb_trans :
    (s t u : List ℕ) → bytes_ltb s t ≡ true → bytes_ltb t u ≡ true → bytes_ltb s u ≡ true
unfolding bytes_ltb
bytes_ltb_trans [] [] u h k = cc
bytes_ltb_trans [] (b ∷ t) [] h k = cc
bytes_ltb_trans [] (b ∷ t) (c ∷ u) h k = ground arith
bytes_ltb_trans (a ∷ s) [] u h k = cc
bytes_ltb_trans (a ∷ s) (b ∷ t) [] h k = cc
bytes_ltb_trans (a ∷ s) (b ∷ t) (c ∷ u) h k = ground (arith, bytes_ltb_trans s t u)

-- If a sequence comes before another, any third is behind the first or before the second.
pub bytes_ltb_cotrans :
    (s t u : List ℕ) → bytes_ltb s u ≡ true → bytes_ltb t u ≡ false → bytes_ltb s t ≡ true
unfolding bytes_ltb
bytes_ltb_cotrans s t [] h k = ground (arith, empty_last s h)
  where
    empty_last : (s : List ℕ) → bytes_ltb s [] ≡ true → true ≡ false
    empty_last [] h = sym h
    empty_last (a ∷ s) h = sym h
bytes_ltb_cotrans s [] (c ∷ u) h k = cc
bytes_ltb_cotrans [] (b ∷ t) (c ∷ u) h k = refl
bytes_ltb_cotrans (a ∷ s) (b ∷ t) (c ∷ u) h k = ground (arith, bytes_ltb_cotrans s t u)
