-- ===== src/Backend/Order.antt =====
-- The rows of a table stand in the order of their keys, one to a key, as `ORDER BY key` over a
-- primary key has it.
use slackbot_hubspot.Base.{◌≡◌, ℕ, true, false, some, List, [], ◌∷◌, arith}
use slackbot_hubspot.Base.Bytes.{bytes_ltb}
use slackbot_hubspot.Base.Bytes.Order.{bytes_ltb_asymm, bytes_ltb_trans}
use slackbot_hubspot.Backend.{Keyed, Table, get, put}

module _ {K V : Type 0} ⦃k : Keyed K⦄ where
  -- No row has a key before `p`.
  abbrev pub NoneBelow : List ℕ → Table K V → Type 0
  NoneBelow p [] = Unit
  NoneBelow p ((j, w) ∷ m) = (bytes_ltb (k.path j) p ≡ false) × NoneBelow p m

  abbrev pub Absent : K → Table K V → Type 0
  Absent i [] = Unit
  Absent i ((j, w) ∷ m) = (k.beq j i ≡ false) × Absent i m

  abbrev pub IsOrdered : Table K V → Type 0
  IsOrdered [] = Unit
  IsOrdered ((j, w) ∷ m) = NoneBelow (k.path j) m × Absent j m × IsOrdered m

  NoneBelow-mono :
      (p q : List ℕ) (m : Table K V) → bytes_ltb p q ≡ true → NoneBelow q m → NoneBelow p m
  NoneBelow-mono p q [] h b = tt
  NoneBelow-mono p q ((j, w) ∷ m) h b =
      (ground (arith, bytes_ltb_trans (k.path j) p q), NoneBelow-mono p q m h b.1)

  NoneBelow-Absent :
      (i : K) (q : List ℕ) (m : Table K V)
      → bytes_ltb (k.path i) q ≡ true
      → NoneBelow q m
      → Absent i m
  NoneBelow-Absent i q [] h b = tt
  NoneBelow-Absent i q ((j, w) ∷ m) h b =
      (ground (arith, k.beq_iff j i), NoneBelow-Absent i q m h b.1)

  NoneBelow-put :
      (p : List ℕ) (m : Table K V) (i : K) (v : V)
      → bytes_ltb (k.path i) p ≡ false
      → NoneBelow p m
      → NoneBelow p (put m i v)
  unfolding put
  NoneBelow-put p [] i v h b = (h, tt)
  NoneBelow-put p ((j, w) ∷ m) i v h b = ground (arith, NoneBelow-put p m i v h b.1)

  Absent-put :
      (j : K) (m : Table K V) (i : K) (v : V)
      → k.beq i j ≡ false
      → Absent j m
      → Absent j (put m i v)
  unfolding put
  Absent-put j [] i v h b = (h, tt)
  Absent-put j ((x, w) ∷ m) i v h b = ground (arith, Absent-put j m i v h b.1)

  -- A write keeps the order.
  pub put-IsOrdered : (m : Table K V) (i : K) (v : V) → IsOrdered m → IsOrdered (put m i v)
  unfolding put
  put-IsOrdered [] i v o = (tt, tt, tt)
  put-IsOrdered ((j, w) ∷ m) i v o = ground (
    arith,
    k.beq_iff j i,
    k.beq_iff i j,
    put-IsOrdered m i v o.2,
    NoneBelow-put (k.path j) m i v,
    Absent-put j m i v,
    NoneBelow-mono (k.path i) (k.path j) m,
    NoneBelow-Absent i (k.path j) m,
    bytes_ltb_asymm (k.path i) (k.path j),
  )

  -- A key with no row is not one that a read finds.
  pub Absent-get :
      (m : Table K V) (j i : K) (v : V) → Absent j m → get m i ≡ some v → k.beq j i ≡ false
  unfolding get
  Absent-get [] j i v a h = cc
  Absent-get ((x, w) ∷ m) j i v a h =
      ground (arith, Absent-get m j i v a.1, k.beq_iff j i, k.beq_iff x i, k.beq_iff x j)

  -- What a scan meets under a key is what a read finds.
  pub get_of_rest :
      (m : Table K V) (j i : K) (w v : V)
      → IsOrdered ((j, w) ∷ m)
      → get m i ≡ some v
      → get ((j, w) ∷ m) i ≡ some v
  unfolding get
  get_of_rest m j i w v o h = rw (Absent-get m j i v o.1 h) h
