-- ===== src/Tests/Sim.antt =====
-- A kernel and a platform to run the program on: maps as dicts, by descriptor.
use flux_guard.Base.{
  ℕ, ◌≡◌, refl, ◌∙◌, Bool-cases, inl, inr, ==_iff, ◌&&◌, Option, none, some, [], ◌∷◌, ◌==◌,
  if◌then◌else◌, Text, same, codes,
}
use flux_guard.Base.Dict.{Dict, lookup, insert, erase, contains_key, NodupKeys}
use flux_guard.Base.Dict.Laws.{lookup-insert, lookup-erase, insert-NodupKeys, erase-NodupKeys}
use flux_guard.Base.Int.{pos}
use flux_guard.Bpf.{Bpf, Reply, reply, failed, enoent}
use flux_guard.Bpf.Laws.{HashMaps, IsHashMaps, first_key, key_after, or_enoent, succeeded}

abbrev pub Maps : Type 0
Maps = ℕ → (d : Dict ℕ) × NodupKeys d

unfoldable pub put : ℕ → Text → ℕ → Maps → Maps
put fd k v s g =
    if g == fd then (insert k v (s fd).0, insert-NodupKeys k v (s fd).0 (s fd).1) else s g

unfoldable pub cut : ℕ → Text → Maps → Maps
cut fd k s g = if g == fd then (erase k (s fd).0, erase-NodupKeys k (s fd).0 (s fd).1) else s g

unfoldable pub delete : ℕ → Text → Maps → Reply (Unit {0}) × Maps
unfolding cut
delete fd k s = if contains_key k (s fd).0 then (reply tt, cut fd k s) else (failed enoent, s)

unfoldable pub next : Option Text → Dict ℕ → Reply Text
next none d = or_enoent (first_key d)
next (some k) d = or_enoent (key_after k d)

abbrev pub pins : Dict ℕ
pins =
    (codes "/sys/fs/bpf/lab/meter_map", 3)
    ∷ (codes "/sys/fs/bpf/lab/blacklist_map", 4)
    ∷ (codes "/sys/fs/bpf/lab/allowlist_map", 5)
    ∷ (codes "/sys/fs/bpf/lab/global_rate_map", 6)
    ∷ []

abbrev pub sim : Bpf
sim = record {
  State = Maps;
  obj_get = λ path s. (or_enoent (lookup path pins), s);
  lookup_elem = λ fd k s. (or_enoent (lookup k (s fd).0), s);
  lookup_percpu = λ fd k s. (reply (5 ∷ 7 ∷ []), s);
  lookup_bucket = λ fd k s. (reply (record { last_time = 0; tokens = pos 9 }), s);
  update_elem = λ fd k v s. (reply tt, put fd k v s);
  delete_elem = λ fd k s. delete fd k s;
  get_next_key = λ fd k s. (next k (s fd).0, s);
}

abbrev pub sim_maps : HashMaps sim
sim_maps = record { entries = λ fd s. (s fd).0; map_id = λ fd. fd }

put_law :
    (fd : ℕ) (k : Text) (v : ℕ) (s : Maps) (g : ℕ) (j : Text)
    → lookup j (put fd k v s g).0 ≡ (if g == fd && same j k then some v else lookup j (s g).0)
unfolding put
put_law fd k v s g j = elim (Bool-cases (g == fd)) [
  | inl e ↦ rw (e, if◌then◌else◌) (lookup-insert j k v (s fd).0 ∙ rw ((==_iff g fd).0 e))
  | inr n ↦ rw (n, if◌then◌else◌)
]

cut_law :
    (fd : ℕ) (k : Text) (s : Maps) (g : ℕ) (j : Text)
    → lookup j (cut fd k s g).0 ≡ (if g == fd && same j k then none else lookup j (s g).0)
unfolding cut
cut_law fd k s g j = elim (Bool-cases (g == fd)) [
  | inl e ↦ rw (e, if◌then◌else◌) (lookup-erase j k (s fd).0 (s fd).1 ∙ rw ((==_iff g fd).0 e))
  | inr n ↦ rw (n, if◌then◌else◌)
]

delete_law :
    (fd : ℕ) (k : Text) (s : Maps) (g : ℕ) (j : Text)
    → lookup j ((delete fd k s).1 g).0
      ≡ (if succeeded (delete fd k s).0 && (g == fd && same j k) then none else lookup j (s g).0)
unfolding delete
delete_law fd k s g j = elim (Bool-cases (contains_key k (s fd).0)) [
  | inl e ↦ rw (e, if◌then◌else◌) (cut_law fd k s g j)
  | inr n ↦ rw (n, if◌then◌else◌)
]

pub sim-IsHashMaps : IsHashMaps sim sim_maps
unfolding next
sim-IsHashMaps = record {
  nodup = λ fd s. (s fd).1;
  lookup_lem = λ fd k s. refl;
  first_lem = λ fd s. refl;
  next_lem = λ fd k v s h. refl;
  update_lem = put_law;
  delete_lem = delete_law;
  bucket_lem = λ fd k s g. refl;
  get_lem = λ path s g. refl;
}
