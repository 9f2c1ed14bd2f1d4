-- ===== src/Base/Sorting.antt =====
-- `slices.SortFunc`, `slices.Sort` and `slices.Compact`. Elements that compare equal keep their
-- order here.
pub mod Order
use mathlib.Core.Bool.{Bool, true, false, not}
use mathlib.Core.List.{List, [], ◌∷◌}
use Prim.Native.String.{String}
use slackbot_hubspot.Base.Tests.{if◌then◌else◌, ◌==◌}
use slackbot_hubspot.Base.Bytes.{bytes, bytes_ltb}

-- `strings.Compare(s, t) < 0`
abbrev pub is_before : String → String → Bool
is_before s t = bytes_ltb (bytes s) (bytes t)

module _ {ℓ} {A : Type ℓ} (name : A → String) where
  unfoldable pub insert : A → List A → List A
  insert a [] = a ∷ []
  insert a (b ∷ bs) =
      let rest = insert a bs in if is_before (name b) (name a) then b ∷ rest else a ∷ b ∷ bs

  -- Sorted by name.
  unfoldable pub sort : List A → List A
  sort [] = []
  sort (a ∷ as') = insert a (sort as')

module _ {ℓ} {A : Type ℓ} (is_less : A → A → Bool) where
  abbrev pub insert_by : A → List A → List A
  insert_by a [] = a ∷ []
  insert_by a (b ∷ bs) = let rest = insert_by a bs in if is_less b a then b ∷ rest else a ∷ b ∷ bs

  -- `sort.SliceStable`
  unfoldable pub sort_by : List A → List A
  sort_by [] = []
  sort_by (a ∷ as') = insert_by a (sort_by as')

-- The list without what stands behind an equal text.
abbrev pub compact_from : String → List String → List String
compact_from s [] = []
compact_from s (t ∷ ts) = let rest = compact_from t ts in if s == t then rest else t ∷ rest

abbrev pub compact : List String → List String
compact [] = []
compact (s ∷ ts) = s ∷ compact_from s ts
