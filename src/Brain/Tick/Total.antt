-- ===== src/Brain/Tick/Total.antt =====
-- The exceptions of a round and of a run.
use flux_guard.Base.{ℕ, ◌+◌, ◌≡◌, refl, List, [], ◌∷◌, arith, Text, same, All-if, subst, sym, ap}
use flux_guard.Base.Dict.{Dict, insert, erase}
use flux_guard.Base.Exec.{ok}
use flux_guard.Bpf.Laws.{HashMaps}
use flux_guard.Brain.State.{
  write_json_log, Platform, Args, Fds, World, on_kernel, logged, save_checkpoint,
}
use flux_guard.Brain.Detect.{
  check_shields_state, detect_one_state, start_block_state, detect_blocks_state,
}
use flux_guard.Brain.Detect.{detect_blocks, check_shields}
use flux_guard.Brain.Detect.Logged.{
  Logs, check_shields-state, check_shields_returns, detect_blocks-state, detect_blocks_returns,
  write_json_log_returns,
}
use flux_guard.Brain.Tick.Table.{publish-state}
use flux_guard.Brain.Tick.{detect_all, publish, tick_of, log_tick}
use flux_guard.Brain.Expire.{
  delete_block, note_unblock, forget, end_block, expired, save_if_any, expire_blocks,
}
use flux_guard.Brain.Expire.Laws.{end_blocks_inv}
use flux_guard.Brain.Expire.Returns.{Addressed, AllAddressed, expire_blocks_returns}
use flux_guard.Brain.Tick.{snapshot, detect_all_state, publish_state, round, rounds}
use flux_guard.Brain.Tick.Inputs.{detect_blocks-inputs, expire_blocks-inputs}
use flux_guard.Brain.Tick.Returns.{Serves, IsAddressed, Keeps, Keeps-then}
use flux_guard.Brain.Tick.Reads.{refresh_allowlists-Keeps, read_maps-Keeps}

module _ (P : Platform) where
  insert-AllAddressed :
      (ip : Text) (ts : ℕ) (d : Dict ℕ)
      → Addressed P ip
      → AllAddressed P d
      → AllAddressed P (insert ip ts d)
  unfolding insert
  insert-AllAddressed ip ts [] a h = (a, tt)
  insert-AllAddressed ip ts ((j, v) ∷ d) a (hj, h) =
      All-if (λ e. Addressed P e.0) (same ip j) _ _ (a, h) (hj, insert-AllAddressed ip ts d a h)

  erase-AllAddressed : (ip : Text) (d : Dict ℕ) → AllAddressed P d → AllAddressed P (erase ip d)
  unfolding erase
  erase-AllAddressed ip [] h = tt
  erase-AllAddressed ip ((j, v) ∷ d) (hj, h) =
      All-if (λ e. Addressed P e.0) (same ip j) _ _ h (hj, erase-AllAddressed ip d h)

  detect_one-AllAddressed :
      (now cooldown : ℕ) (allowed : Dict ℕ) (ip : Text) (w : World P)
      → Addressed P ip
      → AllAddressed P w.blocked_until
      → AllAddressed P (detect_one_state P now cooldown allowed ip w).blocked_until
  unfolding detect_one_state start_block_state logged save_checkpoint
  detect_one-AllAddressed now cooldown allowed ip w a h =
      let new = insert-AllAddressed ip (now + cooldown) w.blocked_until a h in
      ground (arith, new, h)

  detect_blocks-AllAddressed :
      (now cooldown : ℕ) (allowed blacklist : Dict ℕ) (w : World P)
      → AllAddressed P blacklist
      → AllAddressed P w.blocked_until
      → AllAddressed P (detect_blocks_state P now cooldown allowed blacklist w).blocked_until
  unfolding detect_blocks_state
  detect_blocks-AllAddressed now cooldown allowed [] w hb h = h
  detect_blocks-AllAddressed now cooldown allowed ((ip, v) ∷ blacklist) w (a, hb) h =
      detect_blocks-AllAddressed now cooldown allowed blacklist _ hb
        (detect_one-AllAddressed now cooldown allowed ip w a h)

  pub check_shields-IsAddressed :
      (w : World P) → IsAddressed P w → IsAddressed P (check_shields_state P w)
  unfolding check_shields_state logged
  check_shields-IsAddressed w h = ground arith

  pub detect_all-IsAddressed :
      (args : Args) (now : ℕ) (w : World P)
      → IsAddressed P w
      → IsAddressed P (detect_all_state P args now w)
  unfolding detect_all_state
  detect_all-IsAddressed args now w (h, h4, h6) =
      let v =
        detect_blocks_state P now args.cooldown_sec w.allowlist_cache w.readings.curr_blacklist w in
      let one =
        detect_blocks-inputs P now args.cooldown_sec w.allowlist_cache w.readings.curr_blacklist
          w in
      let two =
        detect_blocks-inputs P now args.cooldown_sec v.allowlist_v6_cache
          v.readings.curr_blacklist_v6 v in
      let h6' : AllAddressed P v.readings.curr_blacklist_v6 = ground (arith, h6, one.readings) in
      let both =
        detect_blocks-AllAddressed now args.cooldown_sec v.allowlist_v6_cache
          v.readings.curr_blacklist_v6 v h6'
          (detect_blocks-AllAddressed now args.cooldown_sec w.allowlist_cache
            w.readings.curr_blacklist w h4 h) in
      ground (arith, both, h4, h6, one.readings, two.readings)

  publish-IsAddressed :
      (args : Args) (w : World P) → IsAddressed P w → IsAddressed P (publish_state P args w)
  unfolding publish_state snapshot logged
  publish-IsAddressed args w h = ground arith

  delete_block-AllAddressed :
      (fds : Fds) (ip : Text) (w : World P)
      → (delete_block P fds ip w).1.blocked_until ≡ w.blocked_until
  unfolding delete_block on_kernel
  delete_block-AllAddressed fds ip w = ground arith

  end_block-AllAddressed :
      (fds : Fds) (ip : Text) (w : World P)
      → AllAddressed P w.blocked_until
      → AllAddressed P (end_block P fds ip w).1.blocked_until
  unfolding end_block note_unblock write_json_log logged forget
  end_block-AllAddressed fds ip w h =
      let left = erase-AllAddressed ip w.blocked_until h in
      ground (arith, left, delete_block-AllAddressed fds ip w)

  expire_blocks-Keeps : (fds : Fds) (now : ℕ) → Keeps (expire_blocks P fds now)
  expire_blocks-Keeps fds now = record {
    at = λ w (h, h4, h6).
        let i = expire_blocks-inputs P fds now w in
        (
          expire_blocks_returns P fds now w h,
          (left w h, ground (arith, i.readings, h4), ground (arith, i.readings, h6)),
        );
  }
    where
      left :
          (w : World P)
          → AllAddressed P w.blocked_until
          → AllAddressed P (expire_blocks P fds now w).1.blocked_until
      left w h =
          let ended =
            end_blocks_inv P fds (λ v. AllAddressed P v.blocked_until) (end_block-AllAddressed fds)
              (expired now w.blocked_until) w h in
          unfold expire_blocks save_if_any in ground (arith, ended)

module _ (P : Platform) (L : Logs P) (args : Args) where
  check_shields-Keeps : Keeps (check_shields P)
  check_shields-Keeps = record {
    at = λ w h. (
      check_shields_returns P L w,
      subst (IsAddressed P) (sym (check_shields-state P w)) (check_shields-IsAddressed P w h),
    );
  }

  detect_all_lem :
      (now : ℕ) (w : World P) → detect_all P args now w ≡ (ok tt, detect_all_state P args now w)
  unfolding detect_all detect_all_state
  detect_all_lem now w =
      let c = args.cooldown_sec in
      let four = detect_blocks P now c w.allowlist_cache w.readings.curr_blacklist w in
      let r = detect_blocks_returns P L now c w.allowlist_cache w.readings.curr_blacklist w in
      let r6 =
        detect_blocks_returns P L now c four.1.allowlist_v6_cache four.1.readings.curr_blacklist_v6
          four.1 in
      ground (
        arith,
        r,
        r6,
        detect_blocks-state P now c w.allowlist_cache w.readings.curr_blacklist w r,
        detect_blocks-state P now c four.1.allowlist_v6_cache four.1.readings.curr_blacklist_v6
            four.1 r6,
      )

  detect_all-Keeps : (now : ℕ) → Keeps (detect_all P args now)
  detect_all-Keeps now = record {
    at = λ w h. (
      ap (λ z. z.0) (detect_all_lem now w),
      subst (IsAddressed P) (sym (ap (λ z. z.1) (detect_all_lem now w)))
          (detect_all-IsAddressed P args now w h),
    );
  }

  publish_returns : (w : World P) → (publish P args w).0 ≡ ok tt
  unfolding publish log_tick
  publish_returns w =
      ground (arith, write_json_log_returns P L (tick_of P (snapshot P w)) (snapshot P w))

  publish-Keeps : Keeps (publish P args)
  publish-Keeps = record {
    at = λ w h.
        let r = publish_returns w in
        (
          r,
          subst (IsAddressed P) (sym (publish-state P args w r)) (publish-IsAddressed P args w h),
        );
  }

module _ (P : Platform) (M : HashMaps P.bpf) (fds : Fds) (S : Serves P M fds) (args : Args) where
  pub round-Keeps : (now : ℕ) → Keeps (round P args fds now)
  unfolding round
  round-Keeps now = Keeps-then _ _ (refresh_allowlists-Keeps P M fds S args now) (
      Keeps-then _ _ (read_maps-Keeps P M fds S) (
        Keeps-then _ _ (check_shields-Keeps P S.log args) (
          Keeps-then _ _ (detect_all-Keeps P S.log args now)
            (Keeps-then _ _ (expire_blocks-Keeps P fds now) (publish-Keeps P S.log args)))))

  -- Where the kernel serves the maps of the program and the log takes every line: a run of rounds, at any times, from a state in
  -- which every address is valid in its family, raises nothing, and ends in such a state.
  pub rounds_return :
      (nows : List ℕ) (w : World P)
      → IsAddressed P w
      → ((rounds P args fds nows w).0 ≡ ok tt) × IsAddressed P (rounds P args fds nows w).1
  unfolding rounds
  rounds_return [] w h = (refl, h)
  rounds_return (now ∷ nows) w h =
      let (r, h') = (round-Keeps now).at w h in
      ground (arith, r, rounds_return nows (round P args fds now w).1 h')
