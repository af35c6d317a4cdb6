-- ===== src/Brain/Detect.antt =====
-- Blocks that the packet filter has made, and the Shields-Up check. Each function that writes to the
-- log comes with the state that it leaves where the log takes its lines.
pub mod Laws
pub mod Logged
use flux_guard.Base.{ℕ, ◌+◌, ◌&&◌, not, [], ◌∷◌, if◌then◌else◌, Text, length}
use flux_guard.Base.Dict.{Dict, insert, contains_key}
use flux_guard.Base.Int.{pos, ltb_ℤ, leb_ℤ}
use flux_guard.Base.Exec.{ok, err, Exec}
use flux_guard.Metrics.{inc_block_events, inc_global_pps_exceeded}
use flux_guard.Brain.State.{
  Platform, World, shields_up, auto_block, write_json_log, logged, save_checkpoint,
}

module _ (P : Platform) where
  unfoldable pub check_shields : Exec (World P) (Unit {0})
  unfolding write_json_log inc_global_pps_exceeded
  check_shields w =
      let t = w.readings.global_tokens in
      if leb_ℤ t (pos 0) && ltb_ℤ t w.prev_global_tokens
      then write_json_log P (shields_up t)
          (record w { metrics = inc_global_pps_exceeded w.metrics })
      else (ok tt, w)

  -- The body of the loops over the blacklists, for an address that is new.
  unfoldable pub start_block : ℕ → ℕ → Text → Exec (World P) (Unit {0})
  unfolding write_json_log save_checkpoint inc_block_events
  start_block now cooldown ip w =
      let blocked = insert ip (now + cooldown) w.blocked_until in
      write_json_log P (auto_block ip (length blocked)) (
        save_checkpoint P
          (record w { blocked_until = blocked; metrics = inc_block_events w.metrics }))

  unfoldable pub detect_one : ℕ → ℕ → Dict ℕ → Text → Exec (World P) (Unit {0})
  detect_one now cooldown allowed ip w =
      if not (contains_key ip w.blocked_until) && not (contains_key ip allowed)
      then start_block now cooldown ip w
      else (ok tt, w)

  -- `for ip in curr_blacklist`
  unfoldable pub detect_blocks : ℕ → ℕ → Dict ℕ → Dict ℕ → Exec (World P) (Unit {0})
  detect_blocks now cooldown allowed [] w = (ok tt, w)
  detect_blocks now cooldown allowed ((ip, v) ∷ blacklist) w =
      let (r, w') = detect_one now cooldown allowed ip w in
      elim r [ ok _ ↦ detect_blocks now cooldown allowed blacklist w' | err e ↦ (err e, w') ]

  unfoldable pub check_shields_state : World P → World P
  unfolding logged inc_global_pps_exceeded
  check_shields_state w =
      let t = w.readings.global_tokens in
      if leb_ℤ t (pos 0) && ltb_ℤ t w.prev_global_tokens
      then logged P (shields_up t) (record w { metrics = inc_global_pps_exceeded w.metrics })
      else w

  unfoldable pub start_block_state : ℕ → ℕ → Text → World P → World P
  unfolding logged save_checkpoint inc_block_events
  start_block_state now cooldown ip w =
      let blocked = insert ip (now + cooldown) w.blocked_until in
      logged P (auto_block ip (length blocked)) (
        save_checkpoint P
          (record w { blocked_until = blocked; metrics = inc_block_events w.metrics }))

  unfoldable pub detect_one_state : ℕ → ℕ → Dict ℕ → Text → World P → World P
  detect_one_state now cooldown allowed ip w =
      if not (contains_key ip w.blocked_until) && not (contains_key ip allowed)
      then start_block_state now cooldown ip w
      else w

  unfoldable pub detect_blocks_state : ℕ → ℕ → Dict ℕ → Dict ℕ → World P → World P
  detect_blocks_state now cooldown allowed [] w = w
  detect_blocks_state now cooldown allowed ((ip, v) ∷ blacklist) w =
      detect_blocks_state now cooldown allowed blacklist
        (detect_one_state now cooldown allowed ip w)
