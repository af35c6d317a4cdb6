-- ===== src/Brain/Tick/Saved.antt =====
-- The checkpoint file beside the table of blocks.
use flux_guard.Base.{ℕ, ◌+◌, ◌≡◌, refl, sym, List, [], ◌∷◌, some, Option, arith, Text, subst}
use flux_guard.Base.Dict.{Dict, insert}
use flux_guard.Base.Exec.{ok}
use flux_guard.Metrics.{inc_block_events}
use flux_guard.Brain.State.{Platform, parsed, Args, Fds, World, logged, save_checkpoint}
use flux_guard.Brain.Kernel.{refresh_allowlists}
use flux_guard.Brain.Detect.{
  check_shields_state, detect_one_state, start_block_state, detect_blocks_state,
}
use flux_guard.Brain.Expire.{expired, end_blocks, save_if_any, expire_blocks}
use flux_guard.Brain.Startup.{to_times, load_checkpoint}
use flux_guard.Brain.Tick.{snapshot, detect_all_state, publish_state, round, rounds}
use flux_guard.Brain.Tick.Quiet.{refresh_allowlists-quiet, read_maps-quiet}
use flux_guard.Brain.Tick.Table.{rounds_inv, after_reads, detected, round_steps}

-- A table as the JSON object that `save_checkpoint` writes.
abbrev pub as_floats : Dict ℕ → Dict (Option ℕ)
as_floats [] = []
as_floats ((ip, ts) ∷ d) = (ip, some ts) ∷ as_floats d

to_times-as_floats : (d : Dict ℕ) → to_times (as_floats d) ≡ some d
unfolding to_times
to_times-as_floats [] = refl
to_times-as_floats ((ip, ts) ∷ d) = ground (arith, to_times-as_floats d)

-- A file that can be written is read back as it was written.
abbrev pub Writes : Platform → Type 0
Writes P = (d : P.Disk) (b : Dict ℕ) → P.read (P.write d b) ≡ parsed (as_floats b)

-- A restart would load the table that is in memory.
abbrev pub IsSaved : (P : Platform) → World P → Type 0
IsSaved P w = load_checkpoint (P.read w.disk) ≡ w.blocked_until

module _ (P : Platform) (W : Writes P) where
  save_checkpoint-IsSaved : (w : World P) → IsSaved P (save_checkpoint P w)
  unfolding save_checkpoint load_checkpoint
  save_checkpoint-IsSaved w =
      ground (arith, W w.disk w.blocked_until, to_times-as_floats w.blocked_until)

  start_block-IsSaved :
      (now cooldown : ℕ) (ip : Text) (w : World P)
      → IsSaved P (start_block_state P now cooldown ip w)
  unfolding start_block_state logged save_checkpoint
  start_block-IsSaved now cooldown ip w = ground (
    arith,
    save_checkpoint-IsSaved (record w {
      blocked_until = insert ip (now + cooldown) w.blocked_until;
      metrics = inc_block_events w.metrics;
    }),
  )

  detect_one-IsSaved :
      (now cooldown : ℕ) (allowed : Dict ℕ) (ip : Text) (w : World P)
      → IsSaved P w
      → IsSaved P (detect_one_state P now cooldown allowed ip w)
  unfolding detect_one_state
  detect_one-IsSaved now cooldown allowed ip w h =
      ground (arith, start_block-IsSaved now cooldown ip w)

  detect_blocks-IsSaved :
      (now cooldown : ℕ) (allowed blacklist : Dict ℕ) (w : World P)
      → IsSaved P w
      → IsSaved P (detect_blocks_state P now cooldown allowed blacklist w)
  unfolding detect_blocks_state
  detect_blocks-IsSaved now cooldown allowed [] w h = h
  detect_blocks-IsSaved now cooldown allowed ((ip, v) ∷ blacklist) w h =
      detect_blocks-IsSaved now cooldown allowed blacklist _
        (detect_one-IsSaved now cooldown allowed ip w h)

  expire_blocks-IsSaved :
      (fds : Fds) (now : ℕ) (w : World P)
      → IsSaved P w
      → (expire_blocks P fds now w).0 ≡ ok tt
      → IsSaved P (expire_blocks P fds now w).1
  unfolding expire_blocks save_if_any
  expire_blocks-IsSaved fds now w h returns = by_list (expired now w.blocked_until) refl
    where
      none_expired : (end_blocks P fds [] w).1 ≡ w
      none_expired = unfold end_blocks in refl

      by_list :
          (ips : List Text)
          → expired now w.blocked_until ≡ ips
          → IsSaved P (expire_blocks P fds now w).1
      by_list [] e = ground (arith, e, h, none_expired)
      by_list (ip ∷ ips) e =
          ground (arith, e, returns, save_checkpoint-IsSaved (end_blocks P fds (ip ∷ ips) w).1)

module _ (P : Platform) (W : Writes P) (args : Args) (fds : Fds) where
  after_reads-IsSaved :
      (now : ℕ) (w : World P) → IsSaved P w → IsSaved P (after_reads P args fds now w)
  unfolding after_reads
  after_reads-IsSaved now w h =
      let allowed = refresh_allowlists-quiet P fds args now w in
      let read = read_maps-quiet P fds (refresh_allowlists P fds args now w).1 in
      ground (arith, h, allowed.disk, allowed.blocked, read.disk, read.blocked)

  check_shields-IsSaved : (w : World P) → IsSaved P w → IsSaved P (check_shields_state P w)
  unfolding check_shields_state logged
  check_shields-IsSaved w h = ground arith

  publish-IsSaved : (w : World P) → IsSaved P w → IsSaved P (publish_state P args w)
  unfolding publish_state snapshot logged
  publish-IsSaved w h = ground arith

  detected-IsSaved : (now : ℕ) (w : World P) → IsSaved P w → IsSaved P (detected P args fds now w)
  unfolding detected detect_all_state
  detected-IsSaved now w h = detect_blocks-IsSaved P W now args.cooldown_sec _ _ _ (
      detect_blocks-IsSaved P W now args.cooldown_sec _ _ _
        (check_shields-IsSaved _ (after_reads-IsSaved now w h)))

  round-IsSaved :
      (now : ℕ) (w w' : World P) → round P args fds now w ≡ (ok tt, w') → IsSaved P w → IsSaved P w'
  round-IsSaved now w w' h i =
      let d = detected P args fds now w in
      let (returns, e) = round_steps P args fds now w w' h in
      subst (IsSaved P) (sym e)
        (publish-IsSaved _ (expire_blocks-IsSaved P W fds now d (detected-IsSaved now w i) returns))

  -- Where a written file reads back as it was written: over any run that returns, if the file
  -- holds the table at the start, it holds the table at the end, so that a restart after a kill
  -- between two rounds loads the blocks that were in memory.
  pub rounds-IsSaved :
      (nows : List ℕ) (w w' : World P)
      → IsSaved P w
      → rounds P args fds nows w ≡ (ok tt, w')
      → load_checkpoint (P.read w'.disk) ≡ w'.blocked_until
  rounds-IsSaved nows w w' i h = rounds_inv P args fds (IsSaved P) round-IsSaved nows w w' h i
