-- ===== src/Backend.antt =====
-- internal/store/backend/backend.go: the transactional table of records, and what its drivers'
-- queries (internal/store/sqlite/sqlite.go) do with it.
--
-- A table holds the records under one prefix. Its key is the tuple of identifiers that the store
-- encodes; `path` is the encoded key, by which `Scan` is ordered (`ORDER BY key`).
pub mod Laws
pub mod Order
use slackbot_hubspot.Base.{
  ℕ, ◌≡◌, ◌↔◌, Bool, true, Option, none, some, List, [], ◌∷◌, if◌then◌else◌,
}
use slackbot_hubspot.Base.Bytes.{bytes_ltb}
use slackbot_hubspot.Domain.{Result, ok, err}

pub record Keyed (K : Type 0) : Type 0 where
  pub beq : K → K → Bool
  pub beq_iff : (a b : K) → (beq a b ≡ true) ↔ (a ≡ b)
  pub path : K → List ℕ

abbrev pub Table : Type 0 → Type 0 → Type 0
Table K V = List (K × V)

module _ {K V : Type 0} ⦃k : Keyed K⦄ where
  -- `Get`: `none` is `ErrNotFound`.
  unfoldable pub get : Table K V → K → Option V
  get [] i = none
  get ((j, w) ∷ m) i = if k.beq j i then some w else get m i

  -- `Put`: the row of the key is replaced, or added at its place in the order of the keys.
  unfoldable pub put : Table K V → K → V → Table K V
  put [] i v = (i, v) ∷ []
  put ((j, w) ∷ m) i v =
      if k.beq j i
      then (i, v) ∷ m
      else if bytes_ltb (k.path i) (k.path j)
      then (i, v) ∷ (j, w) ∷ m
      else (j, w) ∷ put m i v

-- `Scan`, over the whole prefix: the values in the order of the keys.
abbrev pub scan : {K V : Type 0} → Table K V → List V
scan [] = []
scan ((i, v) ∷ m) = v ∷ scan m

-- `Update`: the callback's writes are kept if it returns no error.
unfoldable pub commit : {S A : Type 0} → (S → Result (A × S)) → S → Result A × S
commit f s = elim (f s) [ ok (a, t) ↦ (ok a, t) | err e ↦ (err e, s) ]
