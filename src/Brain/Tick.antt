-- ===== src/Brain/Tick.antt =====
-- One round of the loop in `monitor`, the loop, and the pause between two rounds.
pub mod Quiet
pub mod Inputs
pub mod Table
pub mod Counts
pub mod Published
pub mod Saved
pub mod Loop
pub mod Returns
pub mod Reads
pub mod Total
pub mod Refine
pub mod Untouched
pub mod Freed
pub mod Sighted
pub mod Turns
pub mod Defended
use flux_guard.Base.{
  ℕ, zero, suc, ◌+◌, ◌-◌, min, Bool, true, false, ◌&&◌, not, List, [], ◌∷◌, ltb, if◌then◌else◌,
  length,
}
use flux_guard.Base.Dict.{Dict, keys, insert}
use flux_guard.Base.Exec.{ok, err, unfinished, Exec, ◌>>◌}
use flux_guard.Metrics.{update_blocked_set, update_snapshot}
use flux_guard.Brain.State.{
  Floats, Platform, Args, Fds, World, LogEvent, tick, modify, logged, write_json_log,
}
use flux_guard.Brain.Kernel.{refresh_allowlists, read_maps}
use flux_guard.Brain.Detect.{check_shields, detect_blocks, detect_blocks_state}
use flux_guard.Brain.Expire.{expire_blocks}

-- `d.update(e)`
unfoldable pub update_dict {ℓ} : {V : Type ℓ} → Dict V → Dict V → Dict V
update_dict [] d = d
update_dict ((k, v) ∷ e) d = update_dict e (insert k v d)

module _ (P : Platform) where
  unfoldable pub all_counts : World P → Dict ℕ
  all_counts w = update_dict w.readings.curr_counts_v6 (update_dict w.readings.curr_counts [])

  -- The metrics snapshot.
  unfoldable pub snapshot : World P → World P
  snapshot w =
      let n = length w.blocked_until in
      record w {
        metrics =
            update_snapshot (all_counts w) n (update_blocked_set (keys w.blocked_until) w.metrics);
      }

  -- The line of the round.
  abbrev pub tick_of : World P → LogEvent
  tick_of w = tick (length (all_counts w)) (length w.blocked_until) w.readings.global_tokens

  unfoldable pub log_tick : Args → Exec (World P) (Unit {0})
  log_tick args w = if args.no_log_ticks then (ok tt, w) else write_json_log P (tick_of w) w

  -- The metrics snapshot, the TICK line and the tokens for the next round.
  unfoldable pub publish : Args → Exec (World P) (Unit {0})
  unfolding snapshot log_tick
  publish args w =
      let (r, w') = log_tick args (snapshot w) in
      elim r [
        | ok _ ↦ (ok tt, record w' { prev_global_tokens = w'.readings.global_tokens })
        | err e ↦ (err e, w')
      ]

  -- The state it leaves where the log takes the line.
  unfoldable pub publish_state : Args → World P → World P
  unfolding snapshot
  publish_state args w =
      let v = record (snapshot w) { prev_global_tokens = w.readings.global_tokens } in
      if args.no_log_ticks then v else logged P (tick_of (snapshot w)) v

  -- The two loops over the blacklists.
  unfoldable pub detect_all : Args → ℕ → Exec (World P) (Unit {0})
  detect_all args now = do
    λ w. detect_blocks P now args.cooldown_sec w.allowlist_cache w.readings.curr_blacklist w
    λ w. detect_blocks P now args.cooldown_sec w.allowlist_v6_cache w.readings.curr_blacklist_v6 w

  -- The state they leave where the log takes their lines.
  unfoldable pub detect_all_state : Args → ℕ → World P → World P
  detect_all_state args now w =
      let w4 =
        detect_blocks_state P now args.cooldown_sec w.allowlist_cache w.readings.curr_blacklist w in
      detect_blocks_state P now args.cooldown_sec w4.allowlist_v6_cache
        w4.readings.curr_blacklist_v6 w4

  unfoldable pub round : Args → Fds → ℕ → Exec (World P) (Unit {0})
  round args fds now = do
    refresh_allowlists P fds args now
    read_maps P fds
    check_shields P
    detect_all args now
    expire_blocks P fds now
    publish args

  -- The rounds until the shutdown event is set, each with the time at its start.
  unfoldable pub rounds : Args → Fds → List ℕ → Exec (World P) (Unit {0})
  rounds args fds [] w = (ok tt, w)
  rounds args fds (now ∷ nows) w =
      let (r, w') = round args fds now w in
      elim r [ ok _ ↦ rounds args fds nows w' | err e ↦ (err e, w') ]

-- The poll at which the pause stops: `shutdown i` is what the event says at the i-th poll. The event
-- is never cleared, so a poll that sees it set may stand for the next one too. What is left of the
-- pause is a float, and so is rounded.
unfoldable pub sleep_polls : Floats → ℕ → (ℕ → Bool) → ℕ → ℕ → ℕ
sleep_polls F zero shutdown i left = i
sleep_polls F (suc fuel) shutdown i left = elim (ltb 0 left && not (shutdown i)) [
  | true ↦ sleep_polls F fuel shutdown (suc i) (F.nearest (left - min F.tenth left))
  | false ↦ i
]

unfoldable pub after_pause : Floats → Args → (ℕ → Bool) → ℕ → ℕ
after_pause F args shutdown i = sleep_polls F 12 shutdown i (min args.poll_interval F.one)

module _ (P : Platform) where
  -- `while not shutdown_event.is_set()`, from the i-th poll: `clock i` is the time at it. A signal
  -- sets the event between two polls.
  unfoldable pub loop : ℕ → Args → Fds → (ℕ → Bool) → (ℕ → ℕ) → ℕ → Exec (World P) (Unit {0})
  loop zero args fds shutdown clock i w = (err unfinished, w)
  loop (suc fuel) args fds shutdown clock i w = elim (shutdown i) [
    | true ↦ (ok tt, w)
    | false ↦
        let (r, w') = round P args fds (clock i) w in
        elim r [
          | ok _ ↦ loop fuel args fds shutdown clock (after_pause P.floats args shutdown (suc i)) w'
          | err e ↦ (err e, w')
        ]
  ]
