-- ===== src/Brain/Expire/Unblocks.antt =====
-- What `expire_blocks` does to the kernel's blacklist of IPv4.
use flux_guard.Base.{
  ℕ, ◌==◌, ◌≡◌, refl, true, false, Option, none, some, List, [], ◌∷◌, arith, if◌then◌else◌, Text,
  has_char, same, All, Bool-cases, Option-cases, inl, inr, ==_iff, zero, suc,
}
use flux_guard.Base.Dict.{lookup, NodupKeys}
use flux_guard.Base.Exec.{pure}
use flux_guard.Address.{IsPacked}
use flux_guard.Bpf.{del_map_u32, bpf_syscall, ip_to_key}
use flux_guard.Bpf.Laws.{HashMaps, succeeded}
use flux_guard.Brain.Blacklist.{Blacklist, entry, same-format}
use flux_guard.Brain.State.{logged, write_json_log, Platform, Fds, World, if_open, on_kernel}
use flux_guard.Brain.Expire.{
  expired, delete_block, note_unblock, forget, end_block, end_blocks, save_if_any, expire_blocks,
}
use flux_guard.Brain.Expire.Laws.{mem, is_over, mem-expired}
use flux_guard.Brain.Expire.Returns.{Addressed, AllAddressed, end_block_returns, expired-Addressed}

-- An IPv4 blacklist of which the kernel refuses no deletion of an entry.
pub record Deletes (P : Platform) (M : HashMaps P.bpf) (fds : Fds) : Type 0 where
  pub map : Blacklist P M fds
  pub willing :
      (fd : ℕ) (k : Text) (v : ℕ) (s : P.bpf.State)
      → lookup k (M.entries fd s) ≡ some v
      → succeeded (P.bpf.delete_elem fd k s).0 ≡ true

module _ (P : Platform) (M : HashMaps P.bpf) (fds : Fds) (D : Deletes P M fds) where
  -- The deletion of a key that is there or not.
  entry-delete :
      (j k : Text) (s : P.bpf.State)
      → lookup j (M.entries fds.blacklist (P.bpf.delete_elem fds.blacklist k s).1)
        ≡ (if same j k then none else lookup j (M.entries fds.blacklist s))
  entry-delete j k s =
      let one = D.map.laws.delete_lem fds.blacklist k s fds.blacklist j in
      let self = (==_iff (M.map_id fds.blacklist) (M.map_id fds.blacklist)).1 refl in
      elim (Option-cases (lookup k (M.entries fds.blacklist s))) [
        | inl absent ↦ ground (arith, one, absent, self)
        | inr (v, there) ↦ ground (arith, one, self, D.willing fds.blacklist k v s there)
      ]

  entry-delete_v6 :
      (o : Option ℕ) (j ip : Text) (w : World P)
      → ((fd : ℕ) → o ≡ some fd → (M.map_id fds.blacklist == M.map_id fd) ≡ false)
      → entry P M fds j (if_open o (λ fd. on_kernel P (del_map_u32 P.bpf P.v6 fd ip)) (pure tt) w).1
        ≡ entry P M fds j w
  unfolding on_kernel del_map_u32 bpf_syscall ip_to_key
  entry-delete_v6 none j ip w h = refl
  entry-delete_v6 (some zero) j ip w h = refl
  entry-delete_v6 (some (suc fd)) j ip w h = elim (Option-cases (P.v6.parse ip)) [
    | inl bad ↦ ground (arith, bad)
    | inr (k, p) ↦
        ground
          (arith, p, h (suc fd) refl, D.map.laws.delete_lem (suc fd) k w.kernel fds.blacklist j)
  ]

  entry-delete_block :
      (j ip : Text) (w : World P)
      → IsPacked P.v4.width j
      → Addressed P ip
      → entry P M fds j (delete_block P fds ip w).1
        ≡ (if same (P.v4.format j) ip then none else entry P M fds j w)
  unfolding delete_block on_kernel del_map_u32 bpf_syscall ip_to_key
  entry-delete_block j ip w pj h = elim (Bool-cases (has_char b':' ip)) [
    | inl colon ↦
        let other : same (P.v4.format j) ip ≡ false = ground (arith, colon, D.map.plain j pj) in
        rw (colon, other, if◌then◌else◌) (entry-delete_v6 fds.blacklist_v6 j ip w D.map.apart)
    | inr plain ↦ elim (Option-cases (P.v4.parse ip)) [
      | inl bad ↦ absurd ((rw (plain, if◌then◌else◌) at h) bad)
      | inr (k, p) ↦
          ground (arith, plain, p, entry-delete j k w.kernel, same-format P M fds D.map j ip k pj p)
    ]
  ]

  entry-end_block :
      (j ip : Text) (w : World P)
      → IsPacked P.v4.width j
      → Addressed P ip
      → entry P M fds j (end_block P fds ip w).1
        ≡ (if same (P.v4.format j) ip then none else entry P M fds j w)
  unfolding end_block note_unblock write_json_log logged forget
  entry-end_block j ip w pj h = ground (arith, entry-delete_block j ip w pj h)

  entry-end_blocks :
      (j : Text) (ips : List Text) (w : World P)
      → IsPacked P.v4.width j
      → All (Addressed P) ips
      → entry P M fds j (end_blocks P fds ips w).1
        ≡ (if mem (P.v4.format j) ips then none else entry P M fds j w)
  unfolding end_blocks mem
  entry-end_blocks j [] w pj h = refl
  entry-end_blocks j (ip ∷ ips) w pj (hip, h) = ground (
    arith,
    end_block_returns P fds ip w hip,
    entry-end_blocks j ips (end_block P fds ip w).1 pj h,
    entry-end_block j ip w pj hip,
  )

  -- The kernel's IPv4 blacklist loses the entry of each address whose block is over, and no other.
  pub entry-expire_blocks :
      (now : ℕ) (j : Text) (w : World P)
      → IsPacked P.v4.width j
      → NodupKeys w.blocked_until
      → AllAddressed P w.blocked_until
      → entry P M fds j (expire_blocks P fds now w).1
        ≡ (if is_over now (lookup (P.v4.format j) w.blocked_until) then none else entry P M fds j w)
  unfolding expire_blocks save_if_any
  entry-expire_blocks now j w pj u h = ground (
    arith,
    entry-end_blocks j (expired now w.blocked_until) w pj
        (expired-Addressed P now w.blocked_until h),
    mem-expired now (P.v4.format j) w.blocked_until u,
  )
