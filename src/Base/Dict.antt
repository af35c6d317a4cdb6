-- ===== src/Base/Dict.antt =====
-- Python's `dict` with texts as keys, in insertion order.
pub mod Laws
use flux_guard.Base.{
  ◌≡◌, Bool, true, false, Option, none, some, List, [], ◌∷◌, map, if◌then◌else◌, Text, same,
}

abbrev pub Dict {ℓ} : Type ℓ → Type ℓ
Dict V = List (Text × V)

module _ {ℓ} {V : Type ℓ} where
  unfoldable pub lookup : Text → Dict V → Option V
  lookup k [] = none
  lookup k ((j, v) ∷ d) = if same k j then some v else lookup k d

  -- `d[k] = v`: a key that is there keeps its place.
  unfoldable pub insert : Text → V → Dict V → Dict V
  insert k v [] = (k, v) ∷ []
  insert k v ((j, w) ∷ d) = if same k j then (k, v) ∷ d else (j, w) ∷ insert k v d

  -- `d.pop(k, None)`
  unfoldable pub erase : Text → Dict V → Dict V
  erase k [] = []
  erase k ((j, w) ∷ d) = if same k j then d else (j, w) ∷ erase k d

  -- `d.keys()`
  abbrev pub keys : Dict V → List Text
  keys = map (λ e. e.0)

  -- `k in d`
  unfoldable pub contains_key : Text → Dict V → Bool
  unfolding lookup
  contains_key k d = elim (lookup k d) [ none ↦ false | some v ↦ true ]

  -- A dict has each key once.
  abbrev pub NodupKeys : Dict V → Type ℓ
  NodupKeys [] = Unit
  NodupKeys ((k, v) ∷ d) = (lookup k d ≡ none) × NodupKeys d
