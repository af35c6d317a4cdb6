-- ===== src/Brain/Detect/Laws.antt =====
-- Which addresses a pass over a blacklist adds, until when, and what it counts.
use flux_guard.Base.{
  ℕ, ◌+◌, ◌≡◌, refl, Bool, ◌&&◌, not, Option, none, some, [], ◌∷◌, arith, if◌then◌else◌, Text, same,
  length,
}
use flux_guard.Base.Dict.{Dict, lookup, contains_key, NodupKeys}
use flux_guard.Base.Dict.Laws.{lookup-insert, insert-NodupKeys, length-insert_new}
use flux_guard.Brain.State.{Platform, World}
use flux_guard.Brain.Detect.{start_block_state, detect_one_state, detect_blocks_state}

-- The time until which an address is blocked after a pass that found it (`found`) or not.
abbrev pub block_time : ℕ → ℕ → Bool → Option ℕ → Option ℕ
block_time now cooldown found (some ts) = some ts
block_time now cooldown found none = if found then some (now + cooldown) else none

module _ (P : Platform) (now cooldown : ℕ) (allowed : Dict ℕ) where
  lookup-detect_one :
      (j ip : Text) (w : World P)
      → lookup j (detect_one_state P now cooldown allowed ip w).blocked_until
        ≡ block_time now cooldown
            (same j ip && not (contains_key j allowed))
            (lookup j w.blocked_until)
  unfolding detect_one_state start_block_state contains_key
  lookup-detect_one j ip w = ground (arith, lookup-insert j ip (now + cooldown) w.blocked_until)

  -- An old block keeps its time. A new one stands for an address of the blacklist that is not
  -- allowed, and ends after the cooldown.
  pub lookup-detect_blocks :
      (j : Text) (blacklist : Dict ℕ) (w : World P)
      → lookup j (detect_blocks_state P now cooldown allowed blacklist w).blocked_until
        ≡ block_time now cooldown
            (contains_key j blacklist && not (contains_key j allowed))
            (lookup j w.blocked_until)
  unfolding detect_blocks_state contains_key lookup
  lookup-detect_blocks j [] w = ground arith
  lookup-detect_blocks j ((ip, v) ∷ blacklist) w = ground (
    arith,
    lookup-detect_blocks j blacklist (detect_one_state P now cooldown allowed ip w),
    lookup-detect_one j ip w,
  )

  detect_one-NodupKeys :
      (ip : Text) (w : World P)
      → NodupKeys w.blocked_until
      → NodupKeys (detect_one_state P now cooldown allowed ip w).blocked_until
  unfolding detect_one_state start_block_state
  detect_one-NodupKeys ip w u =
      ground (arith, insert-NodupKeys ip (now + cooldown) w.blocked_until u)

  pub detect_blocks-NodupKeys :
      (blacklist : Dict ℕ) (w : World P)
      → NodupKeys w.blocked_until
      → NodupKeys (detect_blocks_state P now cooldown allowed blacklist w).blocked_until
  unfolding detect_blocks_state
  detect_blocks-NodupKeys [] w u = u
  detect_blocks-NodupKeys ((ip, v) ∷ blacklist) w u =
      detect_blocks-NodupKeys blacklist _ (detect_one-NodupKeys ip w u)

  detect_one-counts :
      (ip : Text) (w : World P)
      → (detect_one_state P now cooldown allowed ip w).metrics.block_events + length w.blocked_until
        ≡ w.metrics.block_events
          + length (detect_one_state P now cooldown allowed ip w).blocked_until
  unfolding detect_one_state start_block_state contains_key
  detect_one-counts ip w = ground (arith, length-insert_new ip (now + cooldown) w.blocked_until)

  -- A pass counts one block event for each address that it adds.
  pub detect_blocks-counts :
      (blacklist : Dict ℕ) (w : World P)
      → (detect_blocks_state P now cooldown allowed blacklist w).metrics.block_events
          + length w.blocked_until
        ≡ w.metrics.block_events
          + length (detect_blocks_state P now cooldown allowed blacklist w).blocked_until
  unfolding detect_blocks_state
  detect_blocks-counts [] w = refl
  detect_blocks-counts ((ip, v) ∷ blacklist) w = omega (
    arith,
    detect_blocks-counts blacklist (detect_one_state P now cooldown allowed ip w),
    detect_one-counts ip w,
  )
