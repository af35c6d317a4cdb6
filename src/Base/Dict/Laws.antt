-- ===== src/Base/Dict/Laws.antt =====
-- What a dict holds after each operation, and how many keys it has.
use flux_guard.Base.{◌+◌, ◌≡◌, refl, none, some, [], ◌∷◌, arith, if◌then◌else◌, Text, same, length}
use flux_guard.Base.Dict.{Dict, lookup, insert, erase, NodupKeys}

module _ {ℓ} {V : Type ℓ} where
  pub lookup-insert :
      (j k : Text) (v : V) (d : Dict V)
      → lookup j (insert k v d) ≡ (if same j k then some v else lookup j d)
  unfolding lookup insert
  lookup-insert j k v [] = refl
  lookup-insert j k v ((i, w) ∷ d) = ground (arith, lookup-insert j k v d)

  pub lookup-erase_ne : (j k : Text) (d : Dict V) → (j ≡ k → ⊥) → lookup j (erase k d) ≡ lookup j d
  unfolding lookup erase
  lookup-erase_ne j k [] h = refl
  lookup-erase_ne j k ((i, w) ∷ d) h = ground (arith, lookup-erase_ne j k d h)

  pub lookup-erase_self : (k : Text) (d : Dict V) → NodupKeys d → lookup k (erase k d) ≡ none
  unfolding lookup erase
  lookup-erase_self k [] u = refl
  lookup-erase_self k ((i, w) ∷ d) (fresh, u) = ground (arith, lookup-erase_self k d u)

  pub lookup-erase :
      (j k : Text) (d : Dict V)
      → NodupKeys d
      → lookup j (erase k d) ≡ (if same j k then none else lookup j d)
  lookup-erase j k d u = ground (arith, lookup-erase_ne j k d, lookup-erase_self k d u)

  pub insert-NodupKeys : (k : Text) (v : V) (d : Dict V) → NodupKeys d → NodupKeys (insert k v d)
  unfolding insert lookup
  insert-NodupKeys k v [] u = (refl, tt)
  insert-NodupKeys k v ((j, w) ∷ d) (fresh, u) =
      ground (arith, insert-NodupKeys k v d u, lookup-insert j k v d)

  pub erase-NodupKeys : (k : Text) (d : Dict V) → NodupKeys d → NodupKeys (erase k d)
  unfolding erase
  erase-NodupKeys k [] u = tt
  erase-NodupKeys k ((j, w) ∷ d) (fresh, u) =
      ground (arith, erase-NodupKeys k d u, lookup-erase_ne j k d)

  pub length-insert_new :
      (k : Text) (v : V) (d : Dict V) → lookup k d ≡ none → length (insert k v d) ≡ length d + 1
  unfolding lookup insert
  length-insert_new k v [] h = omega arith
  length-insert_new k v ((j, w) ∷ d) h = ground (arith, length-insert_new k v d)

  pub length-erase :
      (k : Text) (v : V) (d : Dict V) → lookup k d ≡ some v → length (erase k d) + 1 ≡ length d
  unfolding lookup erase
  length-erase k v [] h = cc
  length-erase k v ((j, w) ∷ d) h = ground (arith, length-erase k v d)
