-- ===== src/Metrics/Order.antt =====
-- What sorting does to the entries.
use flux_guard.Base.{ℕ, ◌≡◌, refl, ◌∙◌, none, some, [], ◌∷◌, arith, if◌then◌else◌, Text, same}
use flux_guard.Base.Dict.{Dict, lookup, NodupKeys}
use flux_guard.Metrics.{insert_item, sorted_items}

lookup-insert_item :
    (j k : Text) (v : ℕ) (d : Dict ℕ)
    → lookup k d ≡ none
    → lookup j (insert_item k v d) ≡ (if same j k then some v else lookup j d)
unfolding lookup insert_item
lookup-insert_item j k v [] h = refl
lookup-insert_item j k v ((i, w) ∷ d) h = ground (arith, lookup-insert_item j k v d)

pub lookup-sorted_items :
    (j : Text) (d : Dict ℕ) → NodupKeys d → lookup j (sorted_items d) ≡ lookup j d
unfolding lookup sorted_items
lookup-sorted_items j [] u = refl
lookup-sorted_items j ((k, v) ∷ d) (fresh, u) = ground (
  arith,
  lookup-insert_item j k v (sorted_items d),
  lookup-sorted_items k d u,
  lookup-sorted_items j d u,
)

insert_item-NodupKeys :
    (k : Text) (v : ℕ) (d : Dict ℕ)
    → lookup k d ≡ none
    → NodupKeys d
    → NodupKeys (insert_item k v d)
unfolding lookup insert_item
insert_item-NodupKeys k v [] h u = (refl, tt)
insert_item-NodupKeys k v ((j, w) ∷ d) h (fresh, u) =
    ground (arith, insert_item-NodupKeys k v d, lookup-insert_item j k v d)

pub sorted_items-NodupKeys : (d : Dict ℕ) → NodupKeys d → NodupKeys (sorted_items d)
unfolding sorted_items
sorted_items-NodupKeys [] u = tt
sorted_items-NodupKeys ((k, v) ∷ d) (fresh, u) =
    insert_item-NodupKeys k v (sorted_items d) (lookup-sorted_items k d u ∙ fresh)
      (sorted_items-NodupKeys d u)
