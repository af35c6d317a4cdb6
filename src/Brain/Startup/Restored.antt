-- ===== src/Brain/Startup/Restored.antt =====
-- The kernel's blacklist of IPv4 when the loop begins, and over a restart.
use flux_guard.Base.{
  ℕ, ◌==◌, ◌≡◌, refl, true, false, Option, none, some, [], ◌∷◌, arith, if◌then◌else◌, Text,
  has_char, same, Bool-cases, Option-cases, inl, inr, ==_iff, zero, suc,
}
use flux_guard.Base.Dict.{Dict, keys, lookup}
use flux_guard.Base.Exec.{pure}
use flux_guard.Address.{IsPacked}
use flux_guard.Bpf.{set_map_u32, bpf_syscall, ip_to_key}
use flux_guard.Bpf.Laws.{HashMaps, succeeded}
use flux_guard.Brain.Blacklist.{Blacklist, entry, same-format}
use flux_guard.Brain.State.{Platform, Fds, World, if_open, on_kernel}
use flux_guard.Brain.Expire.Laws.{mem}
use flux_guard.Brain.Expire.Returns.{Addressed, AllAddressed}
use flux_guard.Brain.Startup.{restore_block, restore_blocks}
use flux_guard.Brain.Startup.Yields.{restore_block_returns}

-- The kernel never refuses to write the entry of this key.
abbrev pub IsWilling : (P : Platform) → Fds → Text → Type 0
IsWilling P fds j =
    (v : ℕ) (s : P.bpf.State) → succeeded (P.bpf.update_elem fds.blacklist j v s).0 ≡ true

module _ (P : Platform) (M : HashMaps P.bpf) (fds : Fds) (B : Blacklist P M fds) (j : Text)
    (pj : IsPacked P.v4.width j) (willing : IsWilling P fds j) where
  entry-restore_v6 :
      (o : Option ℕ) (ip : Text) (w : World P)
      → ((fd : ℕ) → o ≡ some fd → (M.map_id fds.blacklist == M.map_id fd) ≡ false)
      → entry P M fds j
          (if_open o (λ fd. on_kernel P (set_map_u32 P.bpf P.v6 fd ip 1)) (pure tt) w).1
        ≡ entry P M fds j w
  unfolding on_kernel set_map_u32 bpf_syscall ip_to_key
  entry-restore_v6 none ip w h = refl
  entry-restore_v6 (some zero) ip w h = refl
  entry-restore_v6 (some (suc fd)) ip w h = elim (Option-cases (P.v6.parse ip)) [
    | inl bad ↦ ground (arith, bad)
    | inr (k, p) ↦
        ground (arith, p, h (suc fd) refl, B.laws.update_lem (suc fd) k 1 w.kernel fds.blacklist j)
  ]

  entry-update :
      (k : Text) (s : P.bpf.State)
      → lookup j (M.entries fds.blacklist (P.bpf.update_elem fds.blacklist k 1 s).1)
        ≡ (if same j k then some 1 else lookup j (M.entries fds.blacklist s))
  entry-update k s =
      let one = B.laws.update_lem fds.blacklist k 1 s fds.blacklist j in
      let self = (==_iff (M.map_id fds.blacklist) (M.map_id fds.blacklist)).1 refl in
      ground (arith, one, self, willing 1 s)

  entry-restore_block :
      (ip : Text) (w : World P)
      → Addressed P ip
      → entry P M fds j (restore_block P fds ip w).1
        ≡ (if same (P.v4.format j) ip then some 1 else entry P M fds j w)
  unfolding restore_block on_kernel set_map_u32 bpf_syscall ip_to_key
  entry-restore_block ip w h = elim (Bool-cases (has_char b':' ip)) [
    | inl colon ↦
        let other : same (P.v4.format j) ip ≡ false = ground (arith, colon, B.plain j pj) in
        ground (arith, colon, other, entry-restore_v6 fds.blacklist_v6 ip w B.apart)
    | inr plain ↦ elim (Option-cases (P.v4.parse ip)) [
      | inl bad ↦ absurd ((rw (plain, if◌then◌else◌) at h) bad)
      | inr (k, p) ↦
          ground (arith, plain, p, entry-update k w.kernel, same-format P M fds B j ip k pj p)
    ]
  ]

  -- The blacklist gets the entry of each address given, and keeps the others.
  pub entry-restore_blocks :
      (d : Dict ℕ) (w : World P)
      → AllAddressed P d
      → entry P M fds j (restore_blocks P fds (keys d) w).1
        ≡ (if mem (P.v4.format j) (keys d) then some 1 else entry P M fds j w)
  unfolding restore_blocks mem
  entry-restore_blocks [] w h = refl
  entry-restore_blocks ((ip, t) ∷ d) w (hip, h) =
      let (k, e) = restore_block_returns P fds ip w hip in
      ground (
        arith,
        e,
        entry-restore_blocks d (restore_block P fds ip w).1 h,
        entry-restore_block ip w hip,
      )
