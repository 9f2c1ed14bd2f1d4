-- ===== src/Store/Keys/Encoding.antt =====
-- internal/store/records.go, `component`: the encoding of bytes, and the slash behind it.
use slackbot_hubspot.Base.{
  ℕ, ◌+◌, ◌*◌, ◌/◌, ◌%◌, ◌<◌, ◌≡◌, ◌≢◌, refl, ap, sym, List, [], ◌∷◌, ◌++◌, arith,
}
use slackbot_hubspot.Store.Keys.{digit, base64, slash}

-- Every number of the list is a byte.
pub data AreBytes : List ℕ → Type 0 where
  none_left : AreBytes []
  then_byte : {b : ℕ} {bs : List ℕ} → b < 256 → AreBytes bs → AreBytes (b ∷ bs)

digit-injective : (a b : ℕ) → a < 64 → b < 64 → digit a ≡ digit b → a ≡ b
unfolding digit
digit-injective a b h k e = ground (arith, h, k, e)

digit-slash : (a : ℕ) → a < 64 → digit a ≢ slash
unfolding digit
digit-slash a h e = ground (arith, h, e)

pub after_head :
    (a b : ℕ) (as' bs : List ℕ) → Path (List ℕ) (a ∷ as') (b ∷ bs) → (a ≡ b) × (as' ≡ bs)
after_head a b as' bs h = (cc h, cc h)

-- Equal texts that begin with a digit each.
digit_each :
    (a b : ℕ) (as' bs : List ℕ)
    → a < 64
    → b < 64
    → Path (List ℕ) (digit a ∷ as') (digit b ∷ bs)
    → (a ≡ b) × (as' ≡ bs)
digit_each a b as' bs h k e =
    let (first, rest) = after_head (digit a) (digit b) as' bs e in
    (digit-injective a b h k first, rest)

-- A text that begins with a digit is none that begins with a slash.
pub digit_first :
    (a : ℕ) (as' bs : List ℕ) → a < 64 → Path (List ℕ) (digit a ∷ as') (slash ∷ bs) → ⊥
digit_first a as' bs h e = digit-slash a h (after_head (digit a) slash as' bs e).0

pub high : (a : ℕ) → a < 256 → a / 4 < 64
high a h = omega (arith, h)

pub middle : (a b : ℕ) → b < 256 → a % 4 * 16 + b / 16 < 64
middle a b h = omega (arith, h)

pub lower : (b c : ℕ) → c < 256 → b % 16 * 4 + c / 64 < 64
lower b c h = omega (arith, h)

pub last_two : (a : ℕ) → a % 4 * 16 < 64
last_two a = omega arith

pub last_four : (b : ℕ) → b % 16 * 4 < 64
last_four b = omega arith

pub last_six : (c : ℕ) → c % 64 < 64
last_six c = omega arith

one_byte : (a b : ℕ) → a / 4 ≡ b / 4 → a % 4 * 16 ≡ b % 4 * 16 → a ≡ b
one_byte a b h k = omega (arith, h, k)

-- The two bits of one byte and the four of the next.
two_and_four :
    (a b c d : ℕ)
    → b < 256
    → d < 256
    → a % 4 * 16 + b / 16 ≡ c % 4 * 16 + d / 16
    → (a % 4 * 16 ≡ c % 4 * 16) × (b / 16 ≡ d / 16)
two_and_four a b c d h k e = (omega (arith, h, k, e), omega (arith, h, k, e))

four_and_two :
    (a b c d : ℕ)
    → b < 256
    → d < 256
    → a % 16 * 4 + b / 64 ≡ c % 16 * 4 + d / 64
    → (a % 16 * 4 ≡ c % 16 * 4) × (b / 64 ≡ d / 64)
four_and_two a b c d h k e = (omega (arith, h, k, e), omega (arith, h, k, e))

second_byte : (a b : ℕ) → a / 16 ≡ b / 16 → a % 16 * 4 ≡ b % 16 * 4 → a ≡ b
second_byte a b h k = omega (arith, h, k)

third_byte : (a b : ℕ) → a / 64 ≡ b / 64 → a % 64 ≡ b % 64 → a ≡ b
third_byte a b h k = omega (arith, h, k)

-- What stands before the first slash, and what stands behind it, can be told from the whole.
pub base64-injective :
    (xs ys r s : List ℕ)
    → AreBytes xs
    → AreBytes ys
    → base64 xs ++ slash ∷ r ≡ base64 ys ++ slash ∷ s
    → (xs ≡ ys) × (r ≡ s)
unfolding base64
base64-injective [] [] r s h k e = (refl, (after_head slash slash r s e).1)
base64-injective [] (b ∷ []) r s h (then_byte l k) e =
    absurd (digit_first (b / 4) _ r (high b l) (sym e))
base64-injective [] (b ∷ c ∷ []) r s h (then_byte l k) e =
    absurd (digit_first (b / 4) _ r (high b l) (sym e))
base64-injective [] (b ∷ c ∷ d ∷ ys) r s h (then_byte l k) e =
    absurd (digit_first (b / 4) _ r (high b l) (sym e))
base64-injective (a ∷ []) [] r s (then_byte l h) k e = absurd (digit_first (a / 4) _ s (high a l) e)
base64-injective (a ∷ []) (b ∷ []) r s (then_byte l h) (then_byte m k) e =
    let (p, e1) = digit_each (a / 4) (b / 4) _ _ (high a l) (high b m) e in
    let (q, e2) = digit_each (a % 4 * 16) (b % 4 * 16) _ _ (last_two a) (last_two b) e1 in
    (ap (λ x. x ∷ []) (one_byte a b p q), (after_head slash slash r s e2).1)
base64-injective (a ∷ []) (b ∷ c ∷ []) r s (then_byte l h) (then_byte m (then_byte n k)) e =
    let e1 = (after_head (digit (a / 4)) (digit (b / 4)) _ _ e).1 in
    let e2 = (after_head (digit (a % 4 * 16)) (digit (b % 4 * 16 + c / 16)) _ _ e1).1 in
    absurd (digit_first (c % 16 * 4) _ r (last_four c) (sym e2))
base64-injective (a ∷ []) (b ∷ c ∷ d ∷ ys) r s (then_byte l h)
      (then_byte m (then_byte n (then_byte o k))) e =
    let e1 = (after_head (digit (a / 4)) (digit (b / 4)) _ _ e).1 in
    let e2 = (after_head (digit (a % 4 * 16)) (digit (b % 4 * 16 + c / 16)) _ _ e1).1 in
    absurd (digit_first (c % 16 * 4 + d / 64) _ r (lower c d o) (sym e2))
base64-injective (a ∷ a2 ∷ []) [] r s (then_byte l h) k e =
    absurd (digit_first (a / 4) _ s (high a l) e)
base64-injective (a ∷ a2 ∷ []) (b ∷ []) r s (then_byte l h) k e =
    let e1 = (after_head (digit (a / 4)) (digit (b / 4)) _ _ e).1 in
    let e2 = (after_head (digit (a % 4 * 16 + a2 / 16)) (digit (b % 4 * 16)) _ _ e1).1 in
    absurd (digit_first (a2 % 16 * 4) _ s (last_four a2) e2)
base64-injective (a ∷ a2 ∷ []) (b ∷ b2 ∷ []) r s (then_byte l (then_byte l2 h))
      (then_byte m (then_byte m2 k)) e =
    let (p, e1) = digit_each (a / 4) (b / 4) _ _ (high a l) (high b m) e in
    let (q, e2) =
      digit_each (a % 4 * 16 + a2 / 16) (b % 4 * 16 + b2 / 16) _ _ (middle a a2 l2) (middle b b2 m2)
        e1 in
    let (t, e3) = digit_each (a2 % 16 * 4) (b2 % 16 * 4) _ _ (last_four a2) (last_four b2) e2 in
    let (u, v) = two_and_four a a2 b b2 l2 m2 q in
    (pair_eq (one_byte a b p u) (second_byte a2 b2 v t), (after_head slash slash r s e3).1)
  where
    pair_eq : {x y z w : ℕ} → x ≡ y → z ≡ w → Path (List ℕ) (x ∷ z ∷ []) (y ∷ w ∷ [])
    pair_eq x y = cc
base64-injective (a ∷ a2 ∷ []) (b ∷ b2 ∷ b3 ∷ ys) r s (then_byte l (then_byte l2 h))
      (then_byte m (then_byte m2 (then_byte m3 k))) e =
    let e1 = (after_head (digit (a / 4)) (digit (b / 4)) _ _ e).1 in
    let e2 = (after_head (digit (a % 4 * 16 + a2 / 16)) (digit (b % 4 * 16 + b2 / 16)) _ _ e1).1 in
    let e3 = (after_head (digit (a2 % 16 * 4)) (digit (b2 % 16 * 4 + b3 / 64)) _ _ e2).1 in
    absurd (digit_first (b3 % 64) _ r (last_six b3) (sym e3))
base64-injective (a ∷ a2 ∷ a3 ∷ xs) [] r s (then_byte l h) k e =
    absurd (digit_first (a / 4) _ s (high a l) e)
base64-injective (a ∷ a2 ∷ a3 ∷ xs) (b ∷ []) r s (then_byte l (then_byte l2 (then_byte l3 h))) k e =
    let e1 = (after_head (digit (a / 4)) (digit (b / 4)) _ _ e).1 in
    let e2 = (after_head (digit (a % 4 * 16 + a2 / 16)) (digit (b % 4 * 16)) _ _ e1).1 in
    absurd (digit_first (a2 % 16 * 4 + a3 / 64) _ s (lower a2 a3 l3) e2)
base64-injective (a ∷ a2 ∷ a3 ∷ xs) (b ∷ b2 ∷ []) r s h k e =
    let e1 = (after_head (digit (a / 4)) (digit (b / 4)) _ _ e).1 in
    let e2 = (after_head (digit (a % 4 * 16 + a2 / 16)) (digit (b % 4 * 16 + b2 / 16)) _ _ e1).1 in
    let e3 = (after_head (digit (a2 % 16 * 4 + a3 / 64)) (digit (b2 % 16 * 4)) _ _ e2).1 in
    absurd (digit_first (a3 % 64) _ s (last_six a3) e3)
base64-injective (a ∷ a2 ∷ a3 ∷ xs) (b ∷ b2 ∷ b3 ∷ ys) r s
      (then_byte l (then_byte l2 (then_byte l3 h))) (then_byte m (then_byte m2 (then_byte m3 k)))
      e =
    let (p, e1) = digit_each (a / 4) (b / 4) _ _ (high a l) (high b m) e in
    let (q, e2) =
      digit_each (a % 4 * 16 + a2 / 16) (b % 4 * 16 + b2 / 16) _ _ (middle a a2 l2) (middle b b2 m2)
        e1 in
    let (t, e3) =
      digit_each (a2 % 16 * 4 + a3 / 64) (b2 % 16 * 4 + b3 / 64) _ _ (lower a2 a3 l3)
        (lower b2 b3 m3) e2 in
    let (w, e4) = digit_each (a3 % 64) (b3 % 64) _ _ (last_six a3) (last_six b3) e3 in
    let (u, v) = two_and_four a a2 b b2 l2 m2 q in
    let (x, y) = four_and_two a2 a3 b2 b3 l3 m3 t in
    let (rest, behind) = base64-injective xs ys r s h k e4 in
    (triple_eq (one_byte a b p u) (second_byte a2 b2 v x) (third_byte a3 b3 y w) rest, behind)
  where
    triple_eq :
        {x y z w i j : ℕ} {as' bs : List ℕ}
        → x ≡ y
        → z ≡ w
        → i ≡ j
        → as' ≡ bs
        → Path (List ℕ) (x ∷ z ∷ i ∷ as') (y ∷ w ∷ j ∷ bs)
    triple_eq x y z w = cc
