-- ===== src/Bpf/Dump.antt =====
-- What `dump_map_u32` returns, and in how many rounds.
use flux_guard.Base.{
  ℕ, zero, suc, ◌≤◌, ◌<◌, ◌≡◌, refl, sym, ap, ◌∙◌, ◌≢◌, none, some, [], ◌∷◌, ◌++◌, append_assoc,
  arith, Text, length, All,
}
use flux_guard.Base.Dict.{Dict, lookup, insert, NodupKeys}
use flux_guard.Base.Exec.{ok}
use flux_guard.Address.{Codec, IsCodec, IsPacked}
use flux_guard.Bpf.{Bpf, reply, store_entry, dump_loop, dump_map_u32}
use flux_guard.Bpf.Laws.{HashMaps, IsHashMaps, key_after, first_key, or_enoent}

-- Every key of a map is a packed address of the family.
abbrev pub AllPacked : ℕ → Dict ℕ → Type 0
AllPacked width d = All (λ e. IsPacked width e.0) d

-- The entries under the text forms of their keys.
unfoldable pub shown : Codec → Dict ℕ → Dict ℕ
shown c [] = []
shown c ((k, v) ∷ d) = (c.format k, v) ∷ shown c d

format-injective :
    (c : Codec) (L : IsCodec c) (j k : Text)
    → IsPacked c.width j
    → IsPacked c.width k
    → c.format j ≡ c.format k
    → j ≡ k
format-injective c L j k hj hk e = cc (L.parse-format j hj, L.parse-format k hk, ap c.parse e)

module _ (c : Codec) (L : IsCodec c) where
  -- A look-up by text finds what a look-up by key finds.
  pub lookup-shown :
      (k : Text) (d : Dict ℕ)
      → IsPacked c.width k
      → AllPacked c.width d
      → lookup (c.format k) (shown c d) ≡ lookup k d
  unfolding lookup shown
  lookup-shown k [] hk hd = refl
  lookup-shown k ((j, v) ∷ d) hk (hj, hd) =
      ground (arith, lookup-shown k d hk hd, format-injective c L k j hk hj)

  pub shown-NodupKeys : (d : Dict ℕ) → AllPacked c.width d → NodupKeys d → NodupKeys (shown c d)
  unfolding shown
  shown-NodupKeys [] hd u = tt
  shown-NodupKeys ((j, v) ∷ d) (hj, hd) (fresh, u) =
      (lookup-shown j d hj hd ∙ fresh, shown-NodupKeys d hd u)

insert_fresh : (k : Text) (v : ℕ) (d : Dict ℕ) → lookup k d ≡ none → insert k v d ≡ d ++ (k, v) ∷ []
unfolding insert lookup
insert_fresh k v [] h = refl
insert_fresh k v ((j, w) ∷ d) h = ground (arith, insert_fresh k v d)

shown-append : (c : Codec) (d e : Dict ℕ) → shown c (d ++ e) ≡ shown c d ++ shown c e
unfolding shown
shown-append c [] e = refl
shown-append c ((k, v) ∷ d) e = ap (◌∷◌ (c.format k, v)) (shown-append c d e)

-- Facts about a key in the middle of a map: `d` stands before it.
ne_of_fresh :
    (d : Dict ℕ) (j k : Text) (v : ℕ) (r : Dict ℕ) → lookup j (d ++ (k, v) ∷ r) ≡ none → j ≢ k
unfolding lookup
ne_of_fresh [] j k v r h = ground arith
ne_of_fresh ((i, w) ∷ d) j k v r h = ground (arith, ne_of_fresh d j k v r)

lookup_middle :
    (d : Dict ℕ) (k : Text) (v : ℕ) (r : Dict ℕ)
    → NodupKeys (d ++ (k, v) ∷ r)
    → (lookup k (d ++ (k, v) ∷ r) ≡ some v) × (lookup k d ≡ none)
unfolding lookup
lookup_middle [] k v r u = ground arith
lookup_middle ((j, w) ∷ d) k v r (fresh, u) =
    ground (arith, ne_of_fresh d j k v r fresh, lookup_middle d k v r u)

AllPacked-middle :
    (n : ℕ) (d : Dict ℕ) (k : Text) (v : ℕ) (r : Dict ℕ)
    → AllPacked n (d ++ (k, v) ∷ r)
    → AllPacked n d × IsPacked n k
AllPacked-middle n [] k v r (h, hr) = (tt, h)
AllPacked-middle n (e ∷ d) k v r (he, h) =
    let (hd, hk) = AllPacked-middle n d k v r h in ((he, hd), hk)

key_after_middle :
    (d : Dict ℕ) (k : Text) (v : ℕ) (r : Dict ℕ)
    → NodupKeys (d ++ (k, v) ∷ r)
    → key_after k (d ++ (k, v) ∷ r) ≡ first_key r
unfolding lookup
key_after_middle [] k v r u = ground arith
key_after_middle ((j, w) ∷ d) k v r (fresh, u) =
    ground (arith, ne_of_fresh d j k v r fresh, key_after_middle d k v r u)

module _ (c : Codec) (L : IsCodec c) where
  store_entry-shown :
      (d : Dict ℕ) (k : Text) (v : ℕ) (r : Dict ℕ)
      → AllPacked c.width (d ++ (k, v) ∷ r)
      → NodupKeys (d ++ (k, v) ∷ r)
      → store_entry c k (ok v) (shown c d) ≡ shown c (d ++ (k, v) ∷ [])
  unfolding store_entry shown
  store_entry-shown d k v r p u =
      let (hd, hk) = AllPacked-middle c.width d k v r p in
      insert_fresh (c.format k) v (shown c d)
        (lookup-shown c L k d hk hd ∙ (lookup_middle d k v r u).1)
      ∙ sym (shown-append c d ((k, v) ∷ []))

module _ (B : Bpf) (M : HashMaps B) (H : IsHashMaps B M) (c : Codec) (L : IsCodec c) where
  found :
      (fd : ℕ) (s : B.State) (all d : Dict ℕ) (k : Text) (v : ℕ) (r : Dict ℕ)
      → M.entries fd s ≡ all
      → all ≡ d ++ (k, v) ∷ r
      → NodupKeys all
      → (B.lookup_elem fd k s ≡ (reply v, s))
        × (B.get_next_key fd (some k) s ≡ (or_enoent (first_key r), s))
  found fd s all d k v r e q u =
      let mid = lookup_middle d k v r (rw q at u) in
      (
        H.lookup_lem fd k s ∙ rw (e, q, mid.0),
        H.next_lem fd k v s (rw (e, q) mid.0) ∙ rw (e, q, key_after_middle d k v r (rw q at u)),
      )

  -- In the middle of the loop `d` has been stored already.
  dump_loop_lem :
      (fuel fd : ℕ) (s : B.State) (all d : Dict ℕ) (k : Text) (v : ℕ) (r : Dict ℕ)
      → M.entries fd s ≡ all
      → all ≡ d ++ (k, v) ∷ r
      → NodupKeys all
      → AllPacked c.width all
      → length r < fuel
      → dump_loop B c fuel fd k (shown c d) s ≡ (ok (shown c all), s)
  unfolding dump_loop
  dump_loop_lem zero fd s all d k v r e q u p h = absurd (omega arith)
  dump_loop_lem (suc fuel) fd s all d k v [] e q u p h =
      let (f, n) = found fd s all d k v [] e q u in
      ground (arith, f, store_entry-shown c L d k v [] (rw q at p) (rw q at u), n, q)
  dump_loop_lem (suc fuel) fd s all d k v ((i, w) ∷ r) e q u p h =
      let (f, n) = found fd s all d k v ((i, w) ∷ r) e q u in
      let q' : all ≡ (d ++ (k, v) ∷ []) ++ (i, w) ∷ r =
        q ∙ sym (append_assoc d ((k, v) ∷ []) ((i, w) ∷ r)) in
      ground (
        arith,
        f,
        store_entry-shown c L d k v ((i, w) ∷ r) (rw q at p) (rw q at u),
        n,
        dump_loop_lem fuel fd s all (d ++ (k, v) ∷ []) i w r e q' u p (omega arith),
      )

  -- For hash maps as documented, a lawful codec, and a map whose keys have the family's width: with
  -- fuel for each entry, `dump_map_u32` returns the map under the texts of its keys, and changes
  -- nothing.
  pub dump_map_u32_lem :
      (fuel fd : ℕ) (s : B.State)
      → AllPacked c.width (M.entries fd s)
      → length (M.entries fd s) ≤ fuel
      → dump_map_u32 B c fuel fd s ≡ (ok (shown c (M.entries fd s)), s)
  unfolding dump_map_u32 shown
  dump_map_u32_lem fuel fd s p h = start (M.entries fd s) refl (H.nodup fd s) p h
    where
      start :
          (all : Dict ℕ)
          → M.entries fd s ≡ all
          → NodupKeys all
          → AllPacked c.width all
          → length all ≤ fuel
          → dump_map_u32 B c fuel fd s ≡ (ok (shown c all), s)
      start [] e u p h = ground (arith, H.first_lem fd s)
      start ((k, v) ∷ all) e u p h =
          ground (
            arith,
            H.first_lem fd s,
            dump_loop_lem fuel fd s ((k, v) ∷ all) [] k v all e refl u p h,
          )
