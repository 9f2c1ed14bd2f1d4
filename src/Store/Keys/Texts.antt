-- ===== src/Store/Keys/Texts.antt =====
-- internal/store/records.go, `component`: the bytes of the texts that it encodes.
use Prim.Native.Char.{Char, char, IsScalar, code}
use text.Mathlib.TextEquality.{Char-path}
use slackbot_hubspot.Base.{
  ℕ, ◌<◌, ◌≡◌, refl, String, List, [], ◌∷◌, ◌++◌, arith, ltb, if_rule, ◌≢◌, sym,
}
use slackbot_hubspot.Base.Bytes.{utf8, bytes}
use slackbot_hubspot.Store.Keys.Encoding.{AreBytes, none_left, then_byte}

scalar_bound : (n : ℕ) → IsScalar n → n < 1114112
scalar_bound n h = ground (arith, h)

AreBytes-append : (xs ys : List ℕ) → AreBytes xs → AreBytes ys → AreBytes (xs ++ ys)
AreBytes-append [] ys none_left k = k
AreBytes-append (x ∷ xs) ys (then_byte b h) k = then_byte b (AreBytes-append xs ys h k)

utf8-AreBytes : (n : ℕ) → n < 1114112 → AreBytes (utf8 n)
unfolding utf8
utf8-AreBytes n h =
    if_rule AreBytes (ltb n 0x80) _ _ (λ one. then_byte (ground (arith, one)) none_left)
      (λ _.
        if_rule AreBytes (ltb n 0x800) _ _
          (λ two. then_byte (ground (arith, two)) (then_byte (omega arith) none_left))
          (λ _.
            if_rule AreBytes (ltb n 0x10000) _ _
              (λ three.
                then_byte (ground (arith, three))
                  (then_byte (omega arith) (then_byte (omega arith) none_left)))
              (λ _. then_byte (ground (arith, h)) (
                then_byte (omega arith)
                  (then_byte (omega arith) (then_byte (omega arith) none_left))))))

pub bytes-AreBytes : (s : String) → AreBytes (bytes s)
unfolding bytes
bytes-AreBytes String.[] = none_left
bytes-AreBytes (String.◌∷◌ (char n p) s) =
    AreBytes-append (utf8 n) (bytes s) (utf8-AreBytes n (scalar_bound n p)) (bytes-AreBytes s)

utf8-injective :
    (n m : ℕ) (r s : List ℕ)
    → n < 1114112
    → m < 1114112
    → utf8 n ++ r ≡ utf8 m ++ s
    → (n ≡ m) × (r ≡ s)
unfolding utf8
utf8-injective n m r s h k e = (ground (arith, h, k, e), ground (arith, h, k, e))

utf8_nonempty : (n : ℕ) (r : List ℕ) → utf8 n ++ r ≢ []
unfolding utf8
utf8_nonempty n r h = ground (arith, h)

-- Texts with the same bytes are the same.
pub bytes-injective : (s t : String) → bytes s ≡ bytes t → s ≡ t
unfolding bytes
bytes-injective String.[] String.[] h = refl
bytes-injective String.[] (String.◌∷◌ d t) h = absurd (utf8_nonempty (code d) (bytes t) (sym h))
bytes-injective (String.◌∷◌ c s) String.[] h = absurd (utf8_nonempty (code c) (bytes s) h)
bytes-injective (String.◌∷◌ (char n p) s) (String.◌∷◌ (char m q) t) h =
    let (first, rest) =
      utf8-injective n m (bytes s) (bytes t) (scalar_bound n p) (scalar_bound m q) h in
    ap_both (Char-path (char n p) (char m q) first) (bytes-injective s t rest)
  where
    ap_both :
        {c d : Char} {s t : String} → c ≡ d → s ≡ t → Path String (String.◌∷◌ c s) (String.◌∷◌ d t)
    ap_both e f = cc
