-- ===== src/Brain/Tick/Inputs.antt =====
-- What the later steps of a round leave alone: the readings and the allowlists that they go by.
use flux_guard.Base.{ℕ, ◌≡◌, refl, ◌∙◌, List, [], ◌∷◌, arith, Text}
use flux_guard.Base.Dict.{Dict}
use flux_guard.Brain.State.{write_json_log, Platform, Args, Fds, World, on_kernel, logged}
use flux_guard.Brain.Detect.{
  check_shields_state, detect_blocks_state, detect_one_state, start_block_state,
}
use flux_guard.Brain.Expire.{
  expired, delete_block, note_unblock, forget, end_block, end_blocks, save_if_any, expire_blocks,
}
use flux_guard.Brain.Expire.Laws.{end_blocks_inv}
use flux_guard.Brain.Tick.{snapshot, detect_all_state, publish_state}

module _ {P : Platform} where
  pub record SameInputs (w w' : World P) : Type 0 where
    pub readings : w'.readings ≡ w.readings
    pub allowed : w'.allowlist_cache ≡ w.allowlist_cache
    pub allowed_v6 : w'.allowlist_v6_cache ≡ w.allowlist_v6_cache

  pub SameInputs-trans : (u v w : World P) → SameInputs u v → SameInputs v w → SameInputs u w
  SameInputs-trans u v w g h = record {
    readings = h.readings ∙ g.readings;
    allowed = h.allowed ∙ g.allowed;
    allowed_v6 = h.allowed_v6 ∙ g.allowed_v6;
  }

module _ (P : Platform) where
  pub check_shields-inputs : (w : World P) → SameInputs w (check_shields_state P w)
  unfolding check_shields_state
  check_shields-inputs w = ground arith

  detect_one-inputs :
      (now cooldown : ℕ) (allowed : Dict ℕ) (ip : Text) (w : World P)
      → SameInputs w (detect_one_state P now cooldown allowed ip w)
  unfolding detect_one_state start_block_state
  detect_one-inputs now cooldown allowed ip w = ground arith

  pub detect_blocks-inputs :
      (now cooldown : ℕ) (allowed blacklist : Dict ℕ) (w : World P)
      → SameInputs w (detect_blocks_state P now cooldown allowed blacklist w)
  unfolding detect_blocks_state
  detect_blocks-inputs now cooldown allowed [] w = record {
    readings = refl;
    allowed = refl;
    allowed_v6 = refl;
  }
  detect_blocks-inputs now cooldown allowed ((ip, v) ∷ blacklist) w =
      SameInputs-trans w _ _ (detect_one-inputs now cooldown allowed ip w)
        (detect_blocks-inputs now cooldown allowed blacklist _)

  pub detect_all-inputs :
      (args : Args) (now : ℕ) (w : World P) → SameInputs w (detect_all_state P args now w)
  unfolding detect_all_state
  detect_all-inputs args now w =
      SameInputs-trans w _ _ (detect_blocks-inputs now args.cooldown_sec _ _ w)
        (detect_blocks-inputs now args.cooldown_sec _ _ _)

  pub publish-inputs : (args : Args) (w : World P) → SameInputs w (publish_state P args w)
  unfolding publish_state snapshot logged
  publish-inputs args w = ground arith

  delete_block-inputs :
      (fds : Fds) (ip : Text) (w : World P) → SameInputs w (delete_block P fds ip w).1
  unfolding delete_block on_kernel
  delete_block-inputs fds ip w = ground arith

  end_block-inputs : (fds : Fds) (ip : Text) (w : World P) → SameInputs w (end_block P fds ip w).1
  unfolding end_block note_unblock write_json_log logged forget
  end_block-inputs fds ip w = ground (arith, delete_block-inputs fds ip w)

  end_blocks-inputs :
      (fds : Fds) (ips : List Text) (w : World P) → SameInputs w (end_blocks P fds ips w).1
  end_blocks-inputs fds ips w =
      end_blocks_inv P fds (SameInputs w)
        (λ ip v h. SameInputs-trans w v _ h (end_block-inputs fds ip v)) ips w
        (record { readings = refl; allowed = refl; allowed_v6 = refl })

  pub expire_blocks-inputs :
      (fds : Fds) (now : ℕ) (w : World P) → SameInputs w (expire_blocks P fds now w).1
  unfolding expire_blocks save_if_any
  expire_blocks-inputs fds now w =
      ground (arith, end_blocks-inputs fds (expired now w.blocked_until) w)
