-- ===== src/Brain/Tick/Table.antt =====
-- The table of blocks after a round, and over a run.
use flux_guard.Base.{
  if◌then◌else◌, ℕ, ◌≡◌, sym, ap, ◌∙◌, Bool, ◌&&◌, ◌||◌, not, List, [], ◌∷◌, arith, Text, refl,
  subst, Bool-cases, inl, inr,
}
use flux_guard.Base.Dict.{Dict, lookup, contains_key, NodupKeys}
use flux_guard.Base.Exec.{Result, ok, Result-cases}
use flux_guard.Brain.State.{Platform, Args, Fds, World, logged, write_json_log}
use flux_guard.Brain.Kernel.{refresh_allowlists, read_maps}
use flux_guard.Brain.Detect.{check_shields, check_shields_state, detect_blocks, detect_blocks_state}
use flux_guard.Brain.Detect.Logged.{check_shields-state, detect_blocks-state}
use flux_guard.Brain.Detect.Laws.{block_time, lookup-detect_blocks, detect_blocks-NodupKeys}
use flux_guard.Brain.Expire.{expire_blocks}
use flux_guard.Brain.Expire.Laws.{still_blocked, lookup-expire_blocks}
use flux_guard.Brain.Tick.{
  log_tick, tick_of, snapshot, detect_all, detect_all_state, publish, publish_state, round, rounds,
}
use flux_guard.Brain.Tick.Inputs.{
  SameInputs, SameInputs-trans, detect_blocks-inputs, detect_all-inputs, expire_blocks-inputs,
  publish-inputs,
}
use flux_guard.Brain.Tick.Quiet.{refresh_allowlists-quiet, read_maps-quiet}

-- The kernel's blacklist of a family has the address, and the allowlist of the family has not.
abbrev pub found_in : {P : Platform} → Text → World P → Bool
found_in j w =
    (contains_key j w.readings.curr_blacklist && not (contains_key j w.allowlist_cache))
    || (contains_key j w.readings.curr_blacklist_v6 && not (contains_key j w.allowlist_v6_cache))

pub publish-state :
    (P : Platform) (args : Args) (w : World P)
    → (publish P args w).0 ≡ ok tt
    → (publish P args w).1 ≡ publish_state P args w
unfolding publish publish_state snapshot logged
publish-state P args w h = elim (Result-cases (log_tick P args (snapshot P w)).0) [
  | inr (x, e) ↦ absurd (ground (arith, h, e))
  | inl (_, e) ↦
      let run : (publish P args w).1 ≡ with_tokens (log_tick P args (snapshot P w)).1 =
        ground (arith, e) in
      run ∙ ap with_tokens state ∙ (elim (Bool-cases args.no_log_ticks) [
        | inl quiet ↦ rw (quiet, if◌then◌else◌) refl
        | inr loud ↦ rw (loud, if◌then◌else◌) refl
      ])
]
  where
    with_tokens : World P → World P
    with_tokens v = record v { prev_global_tokens = v.readings.global_tokens }

    state : (log_tick P args (snapshot P w)).1 ≡ (
        if args.no_log_ticks
        then snapshot P w
        else logged P (tick_of P (snapshot P w)) (snapshot P w))
    state = unfold log_tick write_json_log in ground arith

module _ (P : Platform) (args : Args) (fds : Fds) (now : ℕ) where
  -- The state once the maps are read.
  unfoldable pub after_reads : World P → World P
  after_reads w = (read_maps P fds (refresh_allowlists P fds args now w).1).1

  -- The state before expired blocks are ended.
  unfoldable pub detected : World P → World P
  detected w = detect_all_state P args now (check_shields_state P (after_reads w))

  -- A round that returns has gone through its steps in order.
  pub round_steps :
      (w w' : World P)
      → round P args fds now w ≡ (ok tt, w')
      → ((expire_blocks P fds now (detected w)).0 ≡ ok tt)
        × (w' ≡ publish_state P args (expire_blocks P fds now (detected w)).1)
  unfolding round detected after_reads detect_all detect_all_state
  round_steps w w' h =
      let r = after_reads w in
      let c = (check_shields P r).1 in
      let four =
        detect_blocks P now args.cooldown_sec c.allowlist_cache c.readings.curr_blacklist c in
      ground (
        arith,
        check_shields-state P r,
        detect_blocks-state P now args.cooldown_sec c.allowlist_cache c.readings.curr_blacklist c,
        detect_blocks-state P now args.cooldown_sec four.1.allowlist_v6_cache
            four.1.readings.curr_blacklist_v6 four.1,
        publish-state P args (expire_blocks P fds now (detect_all P args now c).1).1,
      )

  blocked-after_reads : (w : World P) → (after_reads w).blocked_until ≡ w.blocked_until
  unfolding after_reads
  blocked-after_reads w =
      (read_maps-quiet P fds _).blocked ∙ (refresh_allowlists-quiet P fds args now w).blocked

  blocked-check_shields : (w : World P) → (check_shields_state P w).blocked_until ≡ w.blocked_until
  unfolding check_shields_state
  blocked-check_shields w = ground arith

  -- The time that the two passes give an address.
  lookup-detect_all :
      (j : Text) (w : World P)
      → lookup j (detect_all_state P args now w).blocked_until
        ≡ block_time now args.cooldown_sec (found_in j w) (lookup j w.blocked_until)
  unfolding detect_all_state
  lookup-detect_all j w =
      let w4 =
        detect_blocks_state P now args.cooldown_sec w.allowlist_cache w.readings.curr_blacklist w in
      let same =
        detect_blocks-inputs P now args.cooldown_sec w.allowlist_cache w.readings.curr_blacklist
          w in
      ground (
        arith,
        lookup-detect_blocks P now args.cooldown_sec w4.allowlist_v6_cache j
            w4.readings.curr_blacklist_v6 w4,
        lookup-detect_blocks P now args.cooldown_sec w.allowlist_cache j w.readings.curr_blacklist
            w,
        same.readings,
        same.allowed_v6,
      )

  -- The state that the passes over the blacklists work on, and its table.
  unfoldable pub checked : World P → World P
  checked w = check_shields_state P (after_reads w)

  blocked-checked : (w : World P) → (checked w).blocked_until ≡ w.blocked_until
  unfolding checked
  blocked-checked w = blocked-check_shields (after_reads w) ∙ blocked-after_reads w

  pub lookup-detected :
      (j : Text) (w : World P)
      → lookup j (detected w).blocked_until
        ≡ block_time now args.cooldown_sec (found_in j (checked w)) (lookup j w.blocked_until)
  unfolding detected checked
  lookup-detected j w =
      lookup-detect_all j (checked w)
      ∙ ap (λ (d : Dict ℕ). block_time now args.cooldown_sec (found_in j (checked w)) (lookup j d))
          (blocked-checked w)

  pub detected-NodupKeys :
      (w : World P) → NodupKeys w.blocked_until → NodupKeys (detected w).blocked_until
  unfolding detected detect_all_state checked
  detected-NodupKeys w u = detect_blocks-NodupKeys P now args.cooldown_sec _ _ _ (
      detect_blocks-NodupKeys P now args.cooldown_sec _ _ (checked w)
        (subst (λ (d : Dict ℕ). NodupKeys d) (sym (blocked-checked w)) u))

  blocked-publish : (w : World P) → (publish_state P args w).blocked_until ≡ w.blocked_until
  unfolding publish_state snapshot logged
  blocked-publish w = ground arith

  pub round-inputs :
      (w w' : World P) → round P args fds now w ≡ (ok tt, w') → SameInputs (checked w) w'
  unfolding detected checked
  round-inputs w w' h = subst (SameInputs (checked w)) (sym (round_steps w w' h).1) (
      SameInputs-trans (checked w) (detected w) _ (detect_all-inputs P args now (checked w)) (
        SameInputs-trans (detected w) _ _ (expire_blocks-inputs P fds now (detected w))
          (publish-inputs P args _)))

  found_in-inputs : (j : Text) (w w' : World P) → SameInputs w w' → found_in j w' ≡ found_in j w
  found_in-inputs j w w' h = rw (h.readings, h.allowed, h.allowed_v6)

  -- From a table with each address once, after a round that returns: an address is in the table
  -- exactly if its time is still to come, and it was in the table before, or the kernel's blacklist
  -- of a family has it, as read, and the allowlist of that family has not. An older block keeps its
  -- time; a new one ends a cooldown from now.
  pub round-blocked_until :
      (j : Text) (w w' : World P)
      → NodupKeys w.blocked_until
      → round P args fds now w ≡ (ok tt, w')
      → lookup j w'.blocked_until
        ≡ still_blocked now
            (block_time now args.cooldown_sec (found_in j w') (lookup j w.blocked_until))
  round-blocked_until j w w' u h = ground (
    arith,
    (round_steps w w' h).1,
    blocked-publish (expire_blocks P fds now (detected w)).1,
    lookup-expire_blocks P fds now j (detected w) (detected-NodupKeys w u) (round_steps w w' h).0,
    lookup-detected j w,
    found_in-inputs j (checked w) w' (round-inputs w w' h),
  )

module _ (P : Platform) (args : Args) (fds : Fds) where
  pub rounds_step :
      (now : ℕ) (nows : List ℕ) (w w' : World P)
      → rounds P args fds (now ∷ nows) w ≡ (ok tt, w')
      → (v : World P) × (round P args fds now w ≡ (ok tt, v))
        × (rounds P args fds nows v ≡ (ok tt, w'))
  unfolding rounds
  rounds_step now nows w w' h = ((round P args fds now w).1, ground arith, ground arith)

  pub rounds_end : (w w' : World P) → rounds P args fds [] w ≡ (ok tt, w') → w ≡ w'
  unfolding rounds
  rounds_end w w' h = ap (λ (r : Result (Unit {0}) × World P). r.1) h

  -- What every round keeps, a run keeps.
  pub rounds_inv :
      (Q : World P → Type 0)
      → ((now : ℕ) (w w' : World P) → round P args fds now w ≡ (ok tt, w') → Q w → Q w')
      → (nows : List ℕ) (w w' : World P) → rounds P args fds nows w ≡ (ok tt, w')
      → Q w
      → Q w'
  rounds_inv Q keep [] w w' h q = subst Q (rounds_end w w' h) q
  rounds_inv Q keep (now ∷ nows) w w' h q =
      let (v, step, rest) = rounds_step now nows w w' h in
      rounds_inv Q keep nows v w' rest (keep now w v step q)
