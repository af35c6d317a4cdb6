-- ===== src/Brain/Expire.antt =====
-- Blocks whose time is over.
pub mod Laws
pub mod Counts
pub mod Returns
pub mod Unblocks
use flux_guard.Base.{ℕ, ◌-◌, List, [], ◌∷◌, leb, if◌then◌else◌, Text, has_char, length}
use flux_guard.Base.Dict.{Dict, erase}
use flux_guard.Base.Exec.{ok, err, Exec, pure, ◌>>◌, except_os_error}
use flux_guard.Bpf.{del_map_u32, del_map_u32_v6}
use flux_guard.Metrics.{inc_unblock_events}
use flux_guard.Brain.State.{
  Platform, Fds, World, unblock, if_open, on_kernel, write_json_log, save_checkpoint,
}

-- `[ip for ip, ts in blocked_until.items() if now >= ts]`
unfoldable pub expired : ℕ → Dict ℕ → List Text
expired now [] = []
expired now ((ip, ts) ∷ d) = let rest = expired now d in if leb ts now then ip ∷ rest else rest

module _ (P : Platform) (fds : Fds) where
  -- Takes the address out of the kernel's blacklist of its family.
  unfoldable pub delete_block : Text → Exec (World P) (Unit {0})
  delete_block ip =
      if has_char b':' ip
      then if_open fds.blacklist_v6 (λ fd. on_kernel P (del_map_u32_v6 P.bpf P.v6 fd ip)) (pure tt)
      else on_kernel P (del_map_u32 P.bpf P.v4 fds.blacklist ip)

  -- What is counted and written once the address is out.
  unfoldable pub note_unblock : Text → Exec (World P) (Unit {0})
  unfolding write_json_log inc_unblock_events
  note_unblock ip w =
      write_json_log P (unblock ip (length w.blocked_until - 1))
        (record w { metrics = inc_unblock_events w.metrics })

  -- The `finally` clause.
  unfoldable pub forget : Text → World P → World P
  forget ip w = record w { blocked_until = erase ip w.blocked_until }

  -- One round of the loop: an `OSError` is passed over, any other exception goes on after
  -- `finally`.
  unfoldable pub end_block : Text → Exec (World P) (Unit {0})
  end_block ip w =
      let (r, w') = except_os_error (do delete_block ip; note_unblock ip) (pure tt) w in
      (r, forget ip w')

  unfoldable pub end_blocks : List Text → Exec (World P) (Unit {0})
  end_blocks [] w = (ok tt, w)
  end_blocks (ip ∷ ips) w =
      let (r, w') = end_block ip w in elim r [ ok _ ↦ end_blocks ips w' | err e ↦ (err e, w') ]

  -- The checkpoint is saved if anything was expired.
  unfoldable pub save_if_any : List Text → Exec (World P) (Unit {0})
  unfolding save_checkpoint
  save_if_any [] w = (ok tt, w)
  save_if_any (ip ∷ ips) w = (ok tt, save_checkpoint P w)

  unfoldable pub expire_blocks : ℕ → Exec (World P) (Unit {0})
  expire_blocks now w =
      let ips = expired now w.blocked_until in (do end_blocks ips; save_if_any ips) w
