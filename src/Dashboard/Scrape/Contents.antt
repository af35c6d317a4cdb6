-- ===== src/Dashboard/Scrape/Contents.antt =====
-- What the dict and the set of a scrape hold, by the lines added to them.
use flux_guard.Base.{
  ℕ, ◌≡◌, refl, ◌||◌, Option, none, some, List, [], ◌∷◌, ◌++◌, arith, Text, same, All, All-if,
}
use flux_guard.Base.Dict.{Dict, lookup, insert, NodupKeys}
use flux_guard.Base.Dict.Laws.{lookup-insert}
use flux_guard.Base.Int.{ℤ, pos}
use flux_guard.Metrics.{sorted_items, sorted_texts, insert_item, insert_text, text_lt}
use flux_guard.Dashboard.Scrape.{contains, add}
use flux_guard.Dashboard.Scrape.Lines.{Clean, CleanKeys, insert_all, add_all}

abbrev pub as_int : Option ℕ → Option ℤ
as_int none = none
as_int (some n) = some (pos n)

abbrev pub or_else : Option ℤ → Option ℤ → Option ℤ
or_else none o = o
or_else (some n) o = some n

pub lookup-insert_all :
    (j : Text) (d : Dict ℕ) (acc : Dict ℤ)
    → NodupKeys d
    → lookup j (insert_all d acc) ≡ or_else (as_int (lookup j d)) (lookup j acc)
unfolding insert_all lookup
lookup-insert_all j [] acc u = refl
lookup-insert_all j ((k, n) ∷ d) acc (fresh, u) =
    ground (arith, lookup-insert_all j d (insert k (pos n) acc) u, lookup-insert j k (pos n) acc)

contains-append :
    (j : Text) (l m : List Text) → contains j (l ++ m) ≡ (contains j l || contains j m)
unfolding contains
contains-append j [] m = refl
contains-append j (k ∷ l) m = ground (arith, contains-append j l m)

contains-add : (j k : Text) (l : List Text) → contains j (add k l) ≡ (same j k || contains j l)
unfolding contains add
contains-add j k l = ground (arith, contains-append j l (k ∷ []))

pub contains-add_all :
    (j : Text) (l acc : List Text) → contains j (add_all l acc) ≡ (contains j l || contains j acc)
unfolding add_all contains
contains-add_all j [] acc = refl
contains-add_all j (k ∷ l) acc =
    ground (arith, contains-add_all j l (add k acc), contains-add j k acc)

contains-insert_text :
    (j k : Text) (l : List Text) → contains j (insert_text k l) ≡ (same j k || contains j l)
unfolding contains insert_text
contains-insert_text j k [] = refl
contains-insert_text j k (i ∷ l) = ground (arith, contains-insert_text j k l)

pub contains-sorted_texts : (j : Text) (l : List Text) → contains j (sorted_texts l) ≡ contains j l
unfolding sorted_texts contains
contains-sorted_texts j [] = refl
contains-sorted_texts j (k ∷ l) =
    ground (arith, contains-insert_text j k (sorted_texts l), contains-sorted_texts j l)

insert_item-CleanKeys :
    (k : Text) (n : ℕ) (d : Dict ℕ) → Clean k → CleanKeys d → CleanKeys (insert_item k n d)
unfolding insert_item
insert_item-CleanKeys k n [] hk h = (hk, tt)
insert_item-CleanKeys k n ((j, m) ∷ d) hk (hj, h) =
    All-if (λ e. Clean e.0) (text_lt k j) _ _ (hk, (hj, h)) (hj, insert_item-CleanKeys k n d hk h)

pub sorted_items-CleanKeys : (d : Dict ℕ) → CleanKeys d → CleanKeys (sorted_items d)
unfolding sorted_items
sorted_items-CleanKeys [] h = tt
sorted_items-CleanKeys ((k, n) ∷ d) (hk, h) =
    insert_item-CleanKeys k n (sorted_items d) hk (sorted_items-CleanKeys d h)

insert_text-Clean : (k : Text) (l : List Text) → Clean k → All Clean l → All Clean (insert_text k l)
unfolding insert_text
insert_text-Clean k [] hk h = (hk, tt)
insert_text-Clean k (j ∷ l) hk (hj, h) =
    All-if Clean (text_lt k j) _ _ (hk, (hj, h)) (hj, insert_text-Clean k l hk h)

pub sorted_texts-Clean : (l : List Text) → All Clean l → All Clean (sorted_texts l)
unfolding sorted_texts
sorted_texts-Clean [] h = tt
sorted_texts-Clean (k ∷ l) (hk, h) =
    insert_text-Clean k (sorted_texts l) hk (sorted_texts-Clean l h)
