-- ===== src/Base/Sorting/Order.antt =====
-- What a sorted list holds, and in which order.
use Prim.Native.String.{String}
use mathlib.Core.Path.{◌≡◌, refl}
use mathlib.Core.Bool.{Bool, true, false}
use mathlib.Core.Logic.{◌⊎◌, inl, inr}
use mathlib.Core.List.Permᴰ
use mathlib.Core.List.{List, [], ◌∷◌, Memᴰ, Permᴰ}
use native.Mathlib.Omega.{arith}
use slackbot_hubspot.Base.Tests.{if◌then◌else◌, if_rule, Bool-cases}
use slackbot_hubspot.Base.Bytes.{bytes}
use slackbot_hubspot.Base.Bytes.Order.{bytes_ltb_asymm, bytes_ltb_cotrans}
use slackbot_hubspot.Base.Sorting.{is_before, insert, sort}

module _ {ℓ} {A : Type ℓ} (name : A → String) where
  -- No element stands behind one whose name comes later.
  pub data IsSorted : List A → Type ℓ where
    nil : IsSorted []
    cons :
        {a : A} {as' : List A}
        → ((b : A) → Memᴰ b as' → is_before (name b) (name a) ≡ false)
        → IsSorted as'
        → IsSorted (a ∷ as')

  insert-Permᴰ : (a : A) (as' : List A) → Permᴰ (insert name a as') (a ∷ as')
  unfolding insert
  insert-Permᴰ a [] = Permᴰ.cons refl Permᴰ.nil
  insert-Permᴰ a (b ∷ bs) =
      if_rule (λ l. Permᴰ l (a ∷ b ∷ bs)) (is_before (name b) (name a)) _ _
        (λ _. Permᴰ.trans (Permᴰ.cons refl (insert-Permᴰ a bs)) (Permᴰ.swap refl refl))
        (λ _. Permᴰ.refl (a ∷ b ∷ bs))

  -- A sorted list has the elements of the list.
  pub sort-Permᴰ : (as' : List A) → Permᴰ (sort name as') as'
  unfolding sort
  sort-Permᴰ [] = Permᴰ.nil
  sort-Permᴰ (a ∷ as') =
      Permᴰ.trans (insert-Permᴰ a (sort name as')) (Permᴰ.cons refl (sort-Permᴰ as'))

  insert-Memᴰ : (a b : A) (bs : List A) → Memᴰ b (insert name a bs) → (b ≡ a) ⊎ Memᴰ b bs
  unfolding insert
  insert-Memᴰ a b [] (Memᴰ.head e) = inl e
  insert-Memᴰ a b [] (Memᴰ.tail m) = elim m [ ]
  insert-Memᴰ a b (c ∷ bs) m = go (is_before (name c) (name a)) m (insert-Memᴰ a b bs)
    where
      go :
          (t : Bool)
          → Memᴰ b (if t then c ∷ insert name a bs else a ∷ c ∷ bs)
          → (Memᴰ b (insert name a bs) → (b ≡ a) ⊎ Memᴰ b bs)
          → (b ≡ a) ⊎ Memᴰ b (c ∷ bs)
      go true (Memᴰ.head e) rest = inr (Memᴰ.head e)
      go true (Memᴰ.tail n) rest = elim (rest n) [ inl e ↦ inl e | inr k ↦ inr (Memᴰ.tail k) ]
      go false (Memᴰ.head e) rest = inl e
      go false (Memᴰ.tail n) rest = inr n

  not_before_trans :
      (a b c : A)
      → is_before (name b) (name a) ≡ false
      → is_before (name c) (name b) ≡ false
      → is_before (name c) (name a) ≡ false
  not_before_trans a b c h k = elim (Bool-cases (is_before (name c) (name a))) [
    | inl e ↦
        ground
          (arith, h, k, e, bytes_ltb_cotrans (bytes (name c)) (bytes (name b)) (bytes (name a)) e h)
    | inr e ↦ e
  ]

  insert-IsSorted : (a : A) (as' : List A) → IsSorted as' → IsSorted (insert name a as')
  unfolding insert
  insert-IsSorted a [] IsSorted.nil = IsSorted.cons (λ b m. elim m [ ]) IsSorted.nil
  insert-IsSorted a (b ∷ bs) (IsSorted.cons first rest) =
      if_rule IsSorted (is_before (name b) (name a)) _ _
        (λ e.
          IsSorted.cons
            (λ c m. elim (insert-Memᴰ a c bs m) [
              | inl same ↦ rw same (bytes_ltb_asymm (bytes (name b)) (bytes (name a)) e)
              | inr k ↦ first c k
            ])
            (insert-IsSorted a bs rest))
        (λ e. IsSorted.cons (ahead e) (IsSorted.cons first rest))
    where
      ahead :
          is_before (name b) (name a) ≡ false
          → (c : A) → Memᴰ c (b ∷ bs)
          → is_before (name c) (name a) ≡ false
      ahead e c (Memᴰ.head same) = rw same e
      ahead e c (Memᴰ.tail m) = not_before_trans a b c e (first c m)

  pub sort-IsSorted : (as' : List A) → IsSorted (sort name as')
  unfolding sort
  sort-IsSorted [] = IsSorted.nil
  sort-IsSorted (a ∷ as') = insert-IsSorted a (sort name as') (sort-IsSorted as')
