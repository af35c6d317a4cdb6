-- ===== src/Brain/Detect/Logged.antt =====
-- Where the passes over the blacklists return, and what they leave then.
use flux_guard.Base.{ℕ, ◌≡◌, refl, [], ◌∷◌, none, List, arith, Text, ◌+◌, length}
use flux_guard.Base.Dict.{Dict, insert}
use flux_guard.Base.Exec.{ok}
use flux_guard.Metrics.{inc_block_events, inc_global_pps_exceeded}
use flux_guard.Brain.State.{
  Platform, LogEvent, World, logged, write_json_log, shields_up, auto_block, save_checkpoint,
}
use flux_guard.Brain.Detect.{
  check_shields, check_shields_state, start_block, start_block_state, detect_one, detect_one_state,
  detect_blocks, detect_blocks_state,
}

-- The log file takes every line.
abbrev pub Logs : Platform → Type 0
Logs P = (lines : List LogEvent) → P.log_error lines ≡ none

module _ (P : Platform) where
  pub check_shields-state : (w : World P) → (check_shields P w).1 ≡ check_shields_state P w
  unfolding check_shields check_shields_state write_json_log
  check_shields-state w = ground arith

  pub detect_one-state :
      (now cooldown : ℕ) (allowed : Dict ℕ) (ip : Text) (w : World P)
      → (detect_one P now cooldown allowed ip w).1 ≡ detect_one_state P now cooldown allowed ip w
  unfolding detect_one detect_one_state start_block start_block_state write_json_log
  detect_one-state now cooldown allowed ip w = ground arith

  pub detect_blocks-state :
      (now cooldown : ℕ) (allowed blacklist : Dict ℕ) (w : World P)
      → (detect_blocks P now cooldown allowed blacklist w).0 ≡ ok tt
      → (detect_blocks P now cooldown allowed blacklist w).1
        ≡ detect_blocks_state P now cooldown allowed blacklist w
  unfolding detect_blocks detect_blocks_state
  detect_blocks-state now cooldown allowed [] w h = refl
  detect_blocks-state now cooldown allowed ((ip, v) ∷ blacklist) w h =
      let w' = (detect_one P now cooldown allowed ip w).1 in
      ground (
        arith,
        h,
        detect_one-state now cooldown allowed ip w,
        detect_blocks-state now cooldown allowed blacklist w',
      )

  module _ (L : Logs P) where
    pub write_json_log_returns : (e : LogEvent) (w : World P) → (write_json_log P e w).0 ≡ ok tt
    unfolding write_json_log
    write_json_log_returns e w = ground (arith, L (logged P e w).log)

    pub check_shields_returns : (w : World P) → (check_shields P w).0 ≡ ok tt
    unfolding check_shields
    check_shields_returns w =
        let t = w.readings.global_tokens in
        ground (
          arith,
          write_json_log_returns (shields_up t)
              (record w { metrics = inc_global_pps_exceeded w.metrics }),
        )

    detect_one_returns :
        (now cooldown : ℕ) (allowed : Dict ℕ) (ip : Text) (w : World P)
        → (detect_one P now cooldown allowed ip w).0 ≡ ok tt
    unfolding detect_one start_block
    detect_one_returns now cooldown allowed ip w =
        let blocked = insert ip (now + cooldown) w.blocked_until in
        ground (
          arith,
          write_json_log_returns (auto_block ip (length blocked)) (
              save_checkpoint P
                (record w { blocked_until = blocked; metrics = inc_block_events w.metrics })),
        )

    pub detect_blocks_returns :
        (now cooldown : ℕ) (allowed blacklist : Dict ℕ) (w : World P)
        → (detect_blocks P now cooldown allowed blacklist w).0 ≡ ok tt
    unfolding detect_blocks
    detect_blocks_returns now cooldown allowed [] w = refl
    detect_blocks_returns now cooldown allowed ((ip, v) ∷ blacklist) w =
        let w' = (detect_one P now cooldown allowed ip w).1 in
        ground (
          arith,
          detect_one_returns now cooldown allowed ip w,
          detect_blocks_returns now cooldown allowed blacklist w',
        )
