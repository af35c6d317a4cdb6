-- ===== src/Brain/Expire/Returns.antt =====
-- The exceptions of `expire_blocks`.
use flux_guard.Base.{
  ℕ, zero, suc, ◌≡◌, refl, ◌≢◌, Bool, true, false, Option, none, some, List, [], ◌∷◌, arith, leb,
  if◌then◌else◌, Text, has_char, All, All-if, inl, inr, Bool-cases,
}
use flux_guard.Base.Dict.{Dict}
use flux_guard.Base.Exec.{pure, Result-cases, Result, ok, err, os_error}
use flux_guard.Address.{Codec}
use flux_guard.Bpf.{Bpf, del_map_u32}
use flux_guard.Brain.State.{write_json_log, Platform, Fds, World, if_open, on_kernel}
use flux_guard.Brain.Expire.{
  expired, delete_block, note_unblock, end_block, end_blocks, save_if_any, expire_blocks,
}

module _ (P : Platform) where
  -- A text with a colon is an IPv6 address, one without is an IPv4 address.
  abbrev pub Addressed : Text → Type 0
  Addressed ip = if has_char b':' ip then P.v6.parse ip ≢ none else P.v4.parse ip ≢ none

  abbrev pub AllAddressed : Dict ℕ → Type 0
  AllAddressed = All (λ e. Addressed e.0)

  pub expired-Addressed : (now : ℕ) (d : Dict ℕ) → AllAddressed d → All Addressed (expired now d)
  unfolding expired
  expired-Addressed now [] h = tt
  expired-Addressed now ((ip, ts) ∷ d) (hip, h) =
      let rest = expired-Addressed now d h in All-if Addressed (leb ts now) _ _ (hip, rest) rest

-- A result that `except OSError` lets nothing through of.
abbrev pub is_caught : {A : Type 0} → Result A → Bool
is_caught (ok a) = true
is_caught (err (os_error e)) = true
is_caught (err e) = false

pub del_map_u32-is_caught :
    (B : Bpf) (c : Codec) (fd : ℕ) (ip : Text) (s : B.State)
    → c.parse ip ≢ none
    → is_caught (del_map_u32 B c fd ip s).0 ≡ true
unfolding del_map_u32
del_map_u32-is_caught B c fd ip s h = ground arith

module _ (P : Platform) (fds : Fds) where
  v6-is_caught :
      (open_fd : Option ℕ) (ip : Text) (w : World P)
      → P.v6.parse ip ≢ none
      → is_caught (if_open open_fd (λ fd. on_kernel P (del_map_u32 P.bpf P.v6 fd ip)) (pure tt) w).0
        ≡ true
  unfolding on_kernel
  v6-is_caught none ip w h = refl
  v6-is_caught (some zero) ip w h = refl
  v6-is_caught (some (suc fd)) ip w h = del_map_u32-is_caught P.bpf P.v6 (suc fd) ip w.kernel h

  delete_block-is_caught :
      (ip : Text) (w : World P) → Addressed P ip → is_caught (delete_block P fds ip w).0 ≡ true
  unfolding delete_block
  delete_block-is_caught ip w h = elim (Bool-cases (has_char b':' ip)) [
    | inl colon ↦ rw (colon, if◌then◌else◌) (v6-is_caught fds.blacklist_v6 ip w (rw colon at h))
    | inr plain ↦
        rw (plain, if◌then◌else◌)
          (unfold on_kernel in
            del_map_u32-is_caught P.bpf P.v4 fds.blacklist ip w.kernel (rw plain at h))
  ]

  pub end_block_returns :
      (ip : Text) (w : World P) → Addressed P ip → (end_block P fds ip w).0 ≡ ok tt
  unfolding end_block note_unblock write_json_log
  end_block_returns ip w h =
      let done = delete_block-is_caught ip w h in
      elim (Result-cases (delete_block P fds ip w).0) [
        | inl (a, e) ↦ ground (arith, e)
        | inr (x, e) ↦ ground (arith, e, done)
      ]

  end_blocks_returns :
      (ips : List Text) (w : World P) → All (Addressed P) ips → (end_blocks P fds ips w).0 ≡ ok tt
  unfolding end_blocks
  end_blocks_returns [] w h = refl
  end_blocks_returns (ip ∷ ips) w (hip, h) =
      ground (arith, end_block_returns ip w hip, end_blocks_returns ips (end_block P fds ip w).1 h)

  -- Whatever the kernel answers, the pass over the expired blocks raises nothing, if each address
  -- of the table is valid in its family.
  pub expire_blocks_returns :
      (now : ℕ) (w : World P)
      → AllAddressed P w.blocked_until
      → (expire_blocks P fds now w).0 ≡ ok tt
  unfolding expire_blocks save_if_any
  expire_blocks_returns now w h = ground (
    arith,
    end_blocks_returns (expired now w.blocked_until) w (expired-Addressed P now w.blocked_until h),
  )
