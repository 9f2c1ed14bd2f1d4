-- ===== src/Backend/Laws.antt =====
-- What a reader of a table sees after a write.
use slackbot_hubspot.Base.{◌≡◌, ◌≢◌, refl, true, false, some, [], ◌∷◌, arith, if◌then◌else◌}
use slackbot_hubspot.Backend.{Keyed, Table, get, put}

module _ {K : Type 0} ⦃k : Keyed K⦄ where
  pub beq_refl : (i : K) → k.beq i i ≡ true
  beq_refl i = (k.beq_iff i i).1 refl

  pub beq_of_ne : (i j : K) → i ≢ j → k.beq i j ≡ false
  beq_of_ne i j h = ground (arith, k.beq_iff i j)

module _ {K V : Type 0} ⦃k : Keyed K⦄ where
  -- A read finds the value written last under its key.
  pub get-put :
      (m : Table K V) (i j : K) (v : V)
      → get (put m i v) j ≡ (if k.beq i j then some v else get m j)
  unfolding get put
  get-put [] i j v = refl
  get-put ((j', w) ∷ m) i j v =
      ground (arith, get-put m i j v, k.beq_iff j' i, k.beq_iff j' j, k.beq_iff i j)

  pub get-put_self : (m : Table K V) (i : K) (v : V) → get (put m i v) i ≡ some v
  get-put_self m i v = rw (get-put m i i v, beq_refl i)

  pub get-put_ne : (m : Table K V) (i j : K) (v : V) → i ≢ j → get (put m i v) j ≡ get m j
  get-put_ne m i j v h = rw (get-put m i j v, beq_of_ne i j h)
