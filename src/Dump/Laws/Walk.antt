-- ===== src/Dump/Laws/Walk.antt =====
-- The order in which the files of a tree are visited.
use flux_guard.Base.{
  suc, ◌≡◌, refl, ap, ◌∙◌, Bool, true, false, List, [], ◌∷◌, ◌++◌, arith, if◌then◌else◌, Text,
  length,
}
use flux_guard.Base.Dict.{Dict, keys}
use flux_guard.Metrics.{text_lt, insert_text, sorted_texts}
use flux_guard.Dashboard.Scrape.{contains}
use flux_guard.Dashboard.Scrape.Contents.{contains-sorted_texts}
use flux_guard.Dump.{Content, Dir, dir, Dirs, no_dirs, sub}
use flux_guard.Dump.Laws.{Entry, all_files, all_entries, all_entries_in}

-- No name comes before the one in front of it.
abbrev pub Ascends : List Text → Type 0
Ascends [] = Unit
Ascends (a ∷ []) = Unit
Ascends (a ∷ b ∷ l) = (text_lt b a ≡ false) × Ascends (b ∷ l)

-- The names of a directory's files, in ascending order.
abbrev pub Names : Dict Content → List Text → Type 0
Names files names =
    ((t : Text) → contains t names ≡ contains t (keys files))
    × (length names ≡ length files)
    × Ascends names

-- First the files of a directory, then one directory after the other.
unfoldable mutual
  pub Walk : List Text → Dir → List Entry → Type 0
  Walk path (dir files dirs) es =
      (names : List Text) × (rest : List Entry) × Names files names
      × WalkIn path dirs rest
      × (es ≡ all_files path files names ++ rest)

  pub WalkIn : List Text → Dirs → List Entry → Type 0
  WalkIn path no_dirs es = es ≡ []
  WalkIn path (sub d tree dirs) es =
      (here : List Entry) × (rest : List Entry) × Walk (path ++ d ∷ []) tree here
      × WalkIn path dirs rest
      × (es ≡ here ++ rest)

text_lt-asym : (s t : Text) → text_lt s t ≡ true → text_lt t s ≡ false
unfolding text_lt
text_lt-asym s [] h = absurd (ground (arith, h))
text_lt-asym [] (d ∷ t) h = refl
text_lt-asym (c ∷ s) (d ∷ t) h = ground (arith, h, text_lt-asym s t)

if_both :
    (P : List Text → Type 0) (b : Bool) (x y : List Text)
    → (b ≡ true → P x)
    → (b ≡ false → P y)
    → P (if b then x else y)
if_both P true x y f g = f refl
if_both P false x y f g = g refl

cons-insert_text-Ascends :
    (a k : Text) (l : List Text)
    → text_lt k a ≡ false
    → Ascends (a ∷ l)
    → Ascends (a ∷ insert_text k l)
unfolding insert_text
cons-insert_text-Ascends a k [] h p = (h, tt)
cons-insert_text-Ascends a k (b ∷ l) h (ab, p) =
    if_both (λ t. Ascends (a ∷ t)) (text_lt k b) _ _ (λ lt. (h, (text_lt-asym k b lt, p)))
      (λ ge. (ab, cons-insert_text-Ascends b k l ge p))

insert_text-Ascends : (k : Text) (l : List Text) → Ascends l → Ascends (insert_text k l)
unfolding insert_text
insert_text-Ascends k [] p = tt
insert_text-Ascends k (j ∷ l) p =
    if_both Ascends (text_lt k j) _ _ (λ lt. (text_lt-asym k j lt, p))
      (λ ge. cons-insert_text-Ascends j k l ge p)

sorted_texts-Ascends : (l : List Text) → Ascends (sorted_texts l)
unfolding sorted_texts
sorted_texts-Ascends [] = tt
sorted_texts-Ascends (k ∷ l) = insert_text-Ascends k (sorted_texts l) (sorted_texts-Ascends l)

length-insert_text : (k : Text) (l : List Text) → length (insert_text k l) ≡ suc (length l)
unfolding insert_text
length-insert_text k [] = refl
length-insert_text k (j ∷ l) = ground (arith, length-insert_text k l)

length-sorted_texts : (l : List Text) → length (sorted_texts l) ≡ length l
unfolding sorted_texts
length-sorted_texts [] = refl
length-sorted_texts (k ∷ l) = length-insert_text k (sorted_texts l) ∙ ap suc (length-sorted_texts l)

length-keys : (d : Dict Content) → length (keys d) ≡ length d
length-keys [] = refl
length-keys ((k, v) ∷ d) = ap suc (length-keys d)

mutual
  unfolding all_entries Walk

  pub all_entries-Walk : (path : List Text) (tree : Dir) → Walk path tree (all_entries path tree)
  all_entries-Walk path (dir files dirs) = (
    sorted_texts (keys files),
    all_entries_in path dirs,
    (
      λ t. contains-sorted_texts t (keys files),
      length-sorted_texts (keys files) ∙ length-keys files,
      sorted_texts-Ascends (keys files),
    ),
    all_entries_in-WalkIn path dirs,
    refl,
  )

  pub all_entries_in-WalkIn :
      (path : List Text) (dirs : Dirs) → WalkIn path dirs (all_entries_in path dirs)
  all_entries_in-WalkIn path no_dirs = refl
  all_entries_in-WalkIn path (sub d tree dirs) = (
    all_entries (path ++ d ∷ []) tree,
    all_entries_in path dirs,
    all_entries-Walk (path ++ d ∷ []) tree,
    all_entries_in-WalkIn path dirs,
    refl,
  )
