-- ===== src/Bpf/Laws.antt =====
-- What is documented of the hash maps behind bpf(2), while no other party writes to them.
use flux_guard.Base.{
  ℕ, Bool, ◌&&◌, ◌==◌, true, false, ◌≡◌, Option, none, some, [], ◌∷◌, if◌then◌else◌, Text, same,
}
use flux_guard.Base.Dict.{Dict, lookup, NodupKeys}
use flux_guard.Bpf.{Bpf, Reply, failed, reply, enoent}

abbrev pub first_key : Dict ℕ → Option Text
first_key [] = none
first_key ((j, v) ∷ d) = some j

-- The key behind `k` in the kernel's order.
abbrev pub key_after : Text → Dict ℕ → Option Text
key_after k [] = none
key_after k ((j, v) ∷ d) = if same k j then first_key d else key_after k d

abbrev pub or_enoent : {A : Type 0} → Option A → Reply A
or_enoent none = failed enoent
or_enoent (some a) = reply a

abbrev pub succeeded : {A : Type 0} → Reply A → Bool
succeeded (failed e) = false
succeeded (reply a) = true

-- `entries fd s` lists a map in the kernel's order; `map_id fd` tells which map a descriptor opens.
pub record HashMaps (B : Bpf) : Type 0 where
  pub entries : ℕ → B.State → Dict ℕ
  pub map_id : ℕ → ℕ

-- The commands read and write these entries. A write may fail, and then it changes nothing.
pub record IsHashMaps (B : Bpf) (M : HashMaps B) : Type 0 where
  pub nodup : (fd : ℕ) (s : B.State) → NodupKeys (M.entries fd s)
  pub lookup_lem :
      (fd : ℕ) (k : Text) (s : B.State)
      → B.lookup_elem fd k s ≡ (or_enoent (lookup k (M.entries fd s)), s)
  pub first_lem :
      (fd : ℕ) (s : B.State)
      → B.get_next_key fd none s ≡ (or_enoent (first_key (M.entries fd s)), s)
  pub next_lem :
      (fd : ℕ) (k : Text) (v : ℕ) (s : B.State)
      → lookup k (M.entries fd s) ≡ some v
      → B.get_next_key fd (some k) s ≡ (or_enoent (key_after k (M.entries fd s)), s)
  pub update_lem :
      (fd : ℕ) (k : Text) (v : ℕ) (s : B.State) (g : ℕ) (j : Text)
      → lookup j (M.entries g (B.update_elem fd k v s).1) ≡ (
          if succeeded (B.update_elem fd k v s).0 && (M.map_id g == M.map_id fd && same j k)
          then some v
          else lookup j (M.entries g s))
  pub delete_lem :
      (fd : ℕ) (k : Text) (s : B.State) (g : ℕ) (j : Text)
      → lookup j (M.entries g (B.delete_elem fd k s).1) ≡ (
          if succeeded (B.delete_elem fd k s).0 && (M.map_id g == M.map_id fd && same j k)
          then none
          else lookup j (M.entries g s))
  -- The other reads leave the maps alone.
  pub bucket_lem :
      (fd k : ℕ) (s : B.State) (g : ℕ) → M.entries g (B.lookup_bucket fd k s).1 ≡ M.entries g s
  pub get_lem :
      (path : Text) (s : B.State) (g : ℕ) → M.entries g (B.obj_get path s).1 ≡ M.entries g s

-- From one state to another, a key of a map has got a value, or has gone, and nothing else differs.
abbrev pub IsWritten : {B : Bpf} → HashMaps B → ℕ → Text → Option ℕ → B.State → B.State → Type 0
IsWritten M fd k o s s' =
    (g : ℕ) (j : Text)
    → lookup j (M.entries g s')
      ≡ (if M.map_id g == M.map_id fd && same j k then o else lookup j (M.entries g s))

-- No map differs.
abbrev pub SameMaps : {B : Bpf} → HashMaps B → B.State → B.State → Type 0
SameMaps M s s' = (g : ℕ) (j : Text) → lookup j (M.entries g s') ≡ lookup j (M.entries g s)
