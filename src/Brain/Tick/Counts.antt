-- ===== src/Brain/Tick/Counts.antt =====
-- The counters over a run.
use flux_guard.Base.{
  ℕ, ◌+◌, ◌≤◌, ◌≡◌, refl, sym, ap, ◌∙◌, List, [], ◌∷◌, arith, Text, length, subst,
}
use flux_guard.Base.Dict.{Dict, keys, NodupKeys}
use flux_guard.Base.Exec.{ok}
use flux_guard.Metrics.{update_snapshot, update_blocked_set}
use flux_guard.Brain.State.{write_json_log, Platform, Args, Fds, World, on_kernel, logged}
use flux_guard.Brain.Detect.{
  check_shields_state, detect_one_state, start_block_state, detect_blocks_state,
}
use flux_guard.Brain.Detect.Laws.{detect_blocks-counts}
use flux_guard.Brain.Expire.{
  expired, delete_block, note_unblock, forget, end_block, end_blocks, save_if_any, expire_blocks,
}
use flux_guard.Brain.Expire.Laws.{end_blocks_inv, end_block-NodupKeys}
use flux_guard.Brain.Expire.Counts.{expire_blocks-counts}
use flux_guard.Brain.Tick.{snapshot, all_counts, detect_all_state, publish_state, round, rounds}
use flux_guard.Brain.Tick.Quiet.{refresh_allowlists-quiet, read_maps-quiet}
use flux_guard.Brain.Tick.Table.{rounds_inv, after_reads, detected, detected-NodupKeys, round_steps}

module _ (P : Platform) where
  detect_one-unblocks :
      (now cooldown : ℕ) (allowed : Dict ℕ) (ip : Text) (w : World P)
      → (detect_one_state P now cooldown allowed ip w).metrics.unblock_events
        ≡ w.metrics.unblock_events
  unfolding detect_one_state start_block_state
  detect_one-unblocks now cooldown allowed ip w = ground arith

  detect_blocks-unblocks :
      (now cooldown : ℕ) (allowed blacklist : Dict ℕ) (w : World P)
      → (detect_blocks_state P now cooldown allowed blacklist w).metrics.unblock_events
        ≡ w.metrics.unblock_events
  unfolding detect_blocks_state
  detect_blocks-unblocks now cooldown allowed [] w = refl
  detect_blocks-unblocks now cooldown allowed ((ip, v) ∷ blacklist) w =
      detect_blocks-unblocks now cooldown allowed blacklist _
      ∙ detect_one-unblocks now cooldown allowed ip w

  publish-counts :
      (args : Args) (w : World P)
      → ((publish_state P args w).metrics.block_events ≡ w.metrics.block_events)
        × ((publish_state P args w).metrics.unblock_events ≡ w.metrics.unblock_events)
        × ((publish_state P args w).blocked_until ≡ w.blocked_until)
  unfolding publish_state snapshot logged update_snapshot update_blocked_set
  publish-counts args w = ground arith

  delete_block-blocks :
      (fds : Fds) (ip : Text) (w : World P) → (delete_block P fds ip w).1.metrics ≡ w.metrics
  unfolding delete_block on_kernel
  delete_block-blocks fds ip w = ground arith

  expire_blocks-blocks :
      (fds : Fds) (now : ℕ) (w : World P)
      → (expire_blocks P fds now w).1.metrics.block_events ≡ w.metrics.block_events
  unfolding expire_blocks save_if_any
  expire_blocks-blocks fds now w = ground (arith, ended)
    where
      one :
          (ip : Text) (v : World P)
          → (end_block P fds ip v).1.metrics.block_events ≡ v.metrics.block_events
      one ip v =
          unfold end_block note_unblock write_json_log logged forget in
          ground (arith, delete_block-blocks fds ip v)

      ended :
          (end_blocks P fds (expired now w.blocked_until) w).1.metrics.block_events
          ≡ w.metrics.block_events
      ended =
          end_blocks_inv P fds (λ v. v.metrics.block_events ≡ w.metrics.block_events)
            (λ ip v h. one ip v ∙ h) (expired now w.blocked_until) w refl

module _ (P : Platform) (args : Args) (fds : Fds) where
  detect_all-unblocks :
      (now : ℕ) (w : World P)
      → (detect_all_state P args now w).metrics.unblock_events ≡ w.metrics.unblock_events
  unfolding detect_all_state
  detect_all-unblocks now w =
      detect_blocks-unblocks P now args.cooldown_sec _ _ _
      ∙ detect_blocks-unblocks P now args.cooldown_sec _ _ w

  detect_all-counts :
      (now : ℕ) (w : World P)
      → (detect_all_state P args now w).metrics.block_events + length w.blocked_until
        ≡ w.metrics.block_events + length (detect_all_state P args now w).blocked_until
  unfolding detect_all_state
  detect_all-counts now w = omega (
    arith,
    detect_blocks-counts P now args.cooldown_sec w.allowlist_cache w.readings.curr_blacklist w,
    detect_blocks-counts P now args.cooldown_sec _ _ _,
  )

  metrics-after_reads : (now : ℕ) (w : World P) → (after_reads P args fds now w).metrics ≡ w.metrics
  unfolding after_reads
  metrics-after_reads now w =
      (read_maps-quiet P fds _).metrics ∙ (refresh_allowlists-quiet P fds args now w).metrics

  blocked-after_reads :
      (now : ℕ) (w : World P) → (after_reads P args fds now w).blocked_until ≡ w.blocked_until
  unfolding after_reads
  blocked-after_reads now w =
      (read_maps-quiet P fds _).blocked ∙ (refresh_allowlists-quiet P fds args now w).blocked

  check_shields-counts :
      (w : World P)
      → ((check_shields_state P w).metrics.block_events ≡ w.metrics.block_events)
        × ((check_shields_state P w).metrics.unblock_events ≡ w.metrics.unblock_events)
        × ((check_shields_state P w).blocked_until ≡ w.blocked_until)
  unfolding check_shields_state
  check_shields-counts w = ground arith

  -- Unblock events and open blocks together are at most the restored blocks and the block events.
  abbrev pub IsCounted : ℕ → World P → Type 0
  IsCounted restored w =
      w.metrics.unblock_events + length w.blocked_until ≤ restored + w.metrics.block_events

  detected-counts :
      (now : ℕ) (w : World P)
      → ((detected P args fds now w).metrics.block_events + length w.blocked_until
          ≡ w.metrics.block_events + length (detected P args fds now w).blocked_until)
        × ((detected P args fds now w).metrics.unblock_events ≡ w.metrics.unblock_events)
  unfolding detected
  detected-counts now w =
      let r = after_reads P args fds now w in
      let c = check_shields_state P r in
      ground (
        arith,
        detect_all-counts now c,
        detect_all-unblocks now c,
        check_shields-counts r,
        metrics-after_reads now w,
        blocked-after_reads now w,
      )

  round-IsCounted :
      (now restored : ℕ) (w w' : World P)
      → NodupKeys w.blocked_until
      → round P args fds now w ≡ (ok tt, w')
      → IsCounted restored w
      → IsCounted restored w'
  round-IsCounted now restored w w' u h i =
      let d = detected P args fds now w in
      let e = (expire_blocks P fds now d).1 in
      let counted : IsCounted restored (publish_state P args e) = omega (
        arith,
        detected-counts now w,
        expire_blocks-counts P fds now d (detected-NodupKeys P args fds now w u),
        expire_blocks-blocks P fds now d,
        publish-counts P args e,
        ap (λ (t : Dict ℕ). length t) (publish-counts P args e).2,
      ) in
      subst (IsCounted restored) (sym (round_steps P args fds now w w' h).1) counted

  pub round-NodupKeys :
      (now : ℕ) (w w' : World P)
      → NodupKeys w.blocked_until
      → round P args fds now w ≡ (ok tt, w')
      → NodupKeys w'.blocked_until
  unfolding expire_blocks save_if_any
  round-NodupKeys now w w' u h =
      let d = detected P args fds now w in
      let ended =
        end_blocks_inv P fds (λ v. NodupKeys v.blocked_until) (end_block-NodupKeys P fds)
          (expired now d.blocked_until) d (detected-NodupKeys P args fds now w u) in
      ground (
        arith,
        ended,
        (round_steps P args fds now w w' h).1,
        publish-counts P args (expire_blocks P fds now d).1,
      )

  -- Over any run that returns, from a table with each address once, the metrics never claim more
  -- unblocked addresses than were ever blocked: unblock events and the blocks still open are
  -- together at most the blocks restored at the start and the block events.
  pub rounds-IsCounted :
      (nows : List ℕ) (restored : ℕ) (w w' : World P)
      → NodupKeys w.blocked_until
      → IsCounted restored w
      → rounds P args fds nows w ≡ (ok tt, w')
      → NodupKeys w'.blocked_until × IsCounted restored w'
  rounds-IsCounted nows restored w w' u i h =
      rounds_inv P args fds (λ v. NodupKeys v.blocked_until × IsCounted restored v)
        (λ now v v' step q.
          (round-NodupKeys now v v' q.0 step, round-IsCounted now restored v v' q.0 step q.1))
        nows w w' h (u, i)

  -- The snapshot that a round has taken.
  pub round-snapshot :
      (now : ℕ) (w w' : World P)
      → round P args fds now w ≡ (ok tt, w')
      → (w'.metrics.blocked_ips ≡ length w'.blocked_until)
        × (w'.metrics.blocked_ips_set ≡ keys w'.blocked_until)
        × (w'.metrics.packets_by_ip ≡ all_counts P w')
  round-snapshot now w w' h =
      subst
        (λ (v : World P).
          (v.metrics.blocked_ips ≡ length v.blocked_until)
          × (v.metrics.blocked_ips_set ≡ keys v.blocked_until)
          × (v.metrics.packets_by_ip ≡ all_counts P v))
        (sym (round_steps P args fds now w w' h).1)
        (published (expire_blocks P fds now (detected P args fds now w)).1)
    where
      published :
          (v : World P)
          → ((publish_state P args v).metrics.blocked_ips
              ≡ length (publish_state P args v).blocked_until)
            × ((publish_state P args v).metrics.blocked_ips_set
                ≡ keys (publish_state P args v).blocked_until)
            × ((publish_state P args v).metrics.packets_by_ip
                ≡ all_counts P (publish_state P args v))
      published v =
          unfold publish_state logged update_snapshot update_blocked_set all_counts in ground arith
