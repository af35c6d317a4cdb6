-- ===== src/Bpf/Writes.antt =====
-- `set_map_u32` and `del_map_u32`: what a map holds afterwards, and what the next dump shows.
use flux_guard.Base.{
  ℕ, ◌%◌, ◌^◌, ◌≤◌, ◌≡◌, sym, ◌∙◌, ◌&&◌, ◌==◌, inl, inr, Option-cases, text_dec, subst, none, some,
  [], ◌∷◌, arith, if◌then◌else◌, Text, same, length,
}
use flux_guard.Base.Dict.{Dict, lookup, NodupKeys}
use flux_guard.Base.Exec.{ok, err, Error}
use flux_guard.Address.{Codec, IsCodec, IsPacked}
use flux_guard.Bpf.{Bpf, dump_map_u32, set_map_u32, del_map_u32}
use flux_guard.Bpf.Laws.{HashMaps, IsHashMaps, IsWritten}
use flux_guard.Bpf.Dump.{AllPacked, shown, lookup-shown, dump_map_u32_lem}

AllPacked-lookup :
    (n : ℕ) (d : Dict ℕ)
    → NodupKeys d
    → ((j : Text) (v : ℕ) → lookup j d ≡ some v → IsPacked n j)
    → AllPacked n d
unfolding lookup
AllPacked-lookup n [] u h = tt
AllPacked-lookup n ((k, v) ∷ d) (fresh, u) h =
    (h k v (ground arith), AllPacked-lookup n d u (λ j w e. h j w (ground arith)))

lookup-AllPacked :
    (n : ℕ) (d : Dict ℕ) → AllPacked n d → (j : Text) (v : ℕ) → lookup j d ≡ some v → IsPacked n j
unfolding lookup
lookup-AllPacked n [] p j v e = cc
lookup-AllPacked n ((k, w) ∷ d) (pk, p) j v e = elim (text_dec j k) [
  | yes q ↦ subst (IsPacked n) (sym q) pk
  | no q ↦ lookup-AllPacked n d p j v (ground arith)
]

module _ (B : Bpf) (M : HashMaps B) (H : IsHashMaps B M) (c : Codec) where
  -- A call that returns has written its key in its map, and nothing else in any map.
  pub lookup-set_map_u32 :
      (fd : ℕ) (ip k : Text) (v : ℕ) (s s' : B.State) (g : ℕ) (j : Text)
      → c.parse ip ≡ some k
      → set_map_u32 B c fd ip v s ≡ (ok tt, s')
      → lookup j (M.entries g s') ≡ (
          if M.map_id g == M.map_id fd && same j k
          then some (v % 2 ^ 32)
          else lookup j (M.entries g s))
  unfolding set_map_u32
  lookup-set_map_u32 fd ip k v s s' g j p h = ground (arith, H.update_lem fd k (v % 2 ^ 32) s g j)

  -- For hash maps as documented, a call of `set_map_u32` that raises has changed no entry of any
  -- map.
  pub set_map_u32_raises :
      (fd : ℕ) (ip : Text) (v : ℕ) (s s' : B.State) (e : Error) (g : ℕ) (j : Text)
      → set_map_u32 B c fd ip v s ≡ (err e, s')
      → lookup j (M.entries g s') ≡ lookup j (M.entries g s)
  unfolding set_map_u32
  set_map_u32_raises fd ip v s s' e g j h = elim (Option-cases (c.parse ip)) [
    | inl bad ↦ ground (arith, bad)
    | inr (k, p) ↦ ground (arith, p, H.update_lem fd k (v % 2 ^ 32) s g j)
  ]

  -- A call that returns has removed its key from its map, and nothing else from any map.
  pub lookup-del_map_u32 :
      (fd : ℕ) (ip k : Text) (s s' : B.State) (g : ℕ) (j : Text)
      → c.parse ip ≡ some k
      → del_map_u32 B c fd ip s ≡ (ok tt, s')
      → lookup j (M.entries g s')
        ≡ (if M.map_id g == M.map_id fd && same j k then none else lookup j (M.entries g s))
  unfolding del_map_u32
  lookup-del_map_u32 fd ip k s s' g j p h = ground (arith, H.delete_lem fd k s g j)

  -- For hash maps as documented, a call of `del_map_u32` that raises has changed no entry of any
  -- map.
  pub del_map_u32_raises :
      (fd : ℕ) (ip : Text) (s s' : B.State) (e : Error) (g : ℕ) (j : Text)
      → del_map_u32 B c fd ip s ≡ (err e, s')
      → lookup j (M.entries g s') ≡ lookup j (M.entries g s)
  unfolding del_map_u32
  del_map_u32_raises fd ip s s' e g j h = elim (Option-cases (c.parse ip)) [
    | inl bad ↦ ground (arith, bad)
    | inr (k, p) ↦ ground (arith, p, H.delete_lem fd k s g j)
  ]

  pub set_map_u32-IsWritten :
      (fd : ℕ) (ip : Text) (v : ℕ) (s s' : B.State)
      → set_map_u32 B c fd ip v s ≡ (ok tt, s')
      → (k : Text) × (c.parse ip ≡ some k) × IsWritten M fd k (some (v % 2 ^ 32)) s s'
  unfolding set_map_u32
  set_map_u32-IsWritten fd ip v s s' h = elim (Option-cases (c.parse ip)) [
    | inl bad ↦ ground (arith, bad)
    | inr (k, p) ↦ (k, p, λ g j. lookup-set_map_u32 fd ip k v s s' g j p h)
  ]

  pub del_map_u32-IsWritten :
      (fd : ℕ) (ip : Text) (s s' : B.State)
      → del_map_u32 B c fd ip s ≡ (ok tt, s')
      → (k : Text) × (c.parse ip ≡ some k) × IsWritten M fd k none s s'
  unfolding del_map_u32
  del_map_u32-IsWritten fd ip s s' h = elim (Option-cases (c.parse ip)) [
    | inl bad ↦ ground (arith, bad)
    | inr (k, p) ↦ (k, p, λ g j. lookup-del_map_u32 fd ip k s s' g j p h)
  ]

module _ (B : Bpf) (M : HashMaps B) (H : IsHashMaps B M) (c : Codec) (L : IsCodec c) where
  AllPacked-set_map_u32 :
      (fd : ℕ) (ip k : Text) (v : ℕ) (s s' : B.State)
      → AllPacked c.width (M.entries fd s)
      → c.parse ip ≡ some k
      → set_map_u32 B c fd ip v s ≡ (ok tt, s')
      → AllPacked c.width (M.entries fd s')
  AllPacked-set_map_u32 fd ip k v s s' p parsed h =
      AllPacked-lookup c.width (M.entries fd s') (H.nodup fd s') λ j w e. elim (text_dec j k) [
        | yes q ↦ subst (IsPacked c.width) (sym q) (L.parse-IsPacked ip k parsed)
        | no q ↦
            lookup-AllPacked c.width (M.entries fd s) p j w
              (ground (arith, lookup-set_map_u32 B M H c fd ip k v s s' fd j parsed h))
      ]

  -- For hash maps as documented, a lawful codec, and a map whose keys have the family's width:
  -- after `set_map_u32` has returned, a dump with fuel for each entry returns, and shows the value,
  -- cut to 32 bits, under the address written, and every other key's address as it was.
  pub dump-set_map_u32 :
      (fuel fd : ℕ) (ip k : Text) (v : ℕ) (s s' : B.State) (j : Text)
      → IsPacked c.width j
      → AllPacked c.width (M.entries fd s)
      → c.parse ip ≡ some k
      → set_map_u32 B c fd ip v s ≡ (ok tt, s')
      → length (M.entries fd s') ≤ fuel
      → (d : Dict ℕ) × (dump_map_u32 B c fuel fd s' ≡ (ok d, s'))
        × (lookup (c.format j) d
            ≡ (if same j k then some (v % 2 ^ 32) else lookup j (M.entries fd s)))
  dump-set_map_u32 fuel fd ip k v s s' j pj p parsed h f =
      let p' = AllPacked-set_map_u32 fd ip k v s s' p parsed h in
      (
        shown c (M.entries fd s'),
        dump_map_u32_lem B M H c L fuel fd s' p' f,
        lookup-shown c L j (M.entries fd s') pj p'
            ∙ ground (arith, lookup-set_map_u32 B M H c fd ip k v s s' fd j parsed h),
      )

  AllPacked-del_map_u32 :
      (fd : ℕ) (ip k : Text) (s s' : B.State)
      → AllPacked c.width (M.entries fd s)
      → c.parse ip ≡ some k
      → del_map_u32 B c fd ip s ≡ (ok tt, s')
      → AllPacked c.width (M.entries fd s')
  AllPacked-del_map_u32 fd ip k s s' p parsed h =
      AllPacked-lookup c.width (M.entries fd s') (H.nodup fd s') λ j w e.
        lookup-AllPacked c.width (M.entries fd s) p j w
          (ground (arith, lookup-del_map_u32 B M H c fd ip k s s' fd j parsed h))

  -- For hash maps as documented, a lawful codec, and a map whose keys have the family's width:
  -- after `del_map_u32` has returned, a dump with fuel for each entry returns, lacks the address,
  -- and shows every other key's address as it was.
  dump-del_map_u32 :
      (fuel fd : ℕ) (ip k : Text) (s s' : B.State) (j : Text)
      → IsPacked c.width j
      → AllPacked c.width (M.entries fd s)
      → c.parse ip ≡ some k
      → del_map_u32 B c fd ip s ≡ (ok tt, s')
      → length (M.entries fd s') ≤ fuel
      → (d : Dict ℕ) × (dump_map_u32 B c fuel fd s' ≡ (ok d, s'))
        × (lookup (c.format j) d ≡ (if same j k then none else lookup j (M.entries fd s)))
  dump-del_map_u32 fuel fd ip k s s' j pj p parsed h f =
      let p' = AllPacked-del_map_u32 fd ip k s s' p parsed h in
      (
        shown c (M.entries fd s'),
        dump_map_u32_lem B M H c L fuel fd s' p' f,
        lookup-shown c L j (M.entries fd s') pj p'
            ∙ ground (arith, lookup-del_map_u32 B M H c fd ip k s s' fd j parsed h),
      )
