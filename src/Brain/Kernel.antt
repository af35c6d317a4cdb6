-- ===== src/Brain/Kernel.antt =====
-- The reads at the head of a round: the allowlists, the blacklists, the counters, the tokens.
use flux_guard.Base.{ℕ, ◌-◌, [], leb, if◌then◌else◌}
use flux_guard.Base.Dict.{Dict}
use flux_guard.Base.Int.{pos}
use flux_guard.Base.Exec.{ok, Exec, pure, ◌>>=◌, ◌>>◌, except_os_error}
use flux_guard.Bpf.{dump_map_u32, dump_map_u32_v6, get_global_tokens}
use flux_guard.Brain.State.{Platform, Args, Fds, Readings, World, if_open, on_kernel, modify}

abbrev pub no_readings : Readings
no_readings = record {
  curr_blacklist = [];
  curr_blacklist_v6 = [];
  curr_counts = [];
  curr_counts_v6 = [];
  global_tokens = pos 0;
}

module _ (P : Platform) (fds : Fds) where
  abbrev dump_v4 : ℕ → Exec (World P) (Dict ℕ)
  dump_v4 fd = on_kernel P (dump_map_u32 P.bpf P.v4 P.fuel fd)

  abbrev dump_v6 : ℕ → Exec (World P) (Dict ℕ)
  dump_v6 fd = on_kernel P (dump_map_u32_v6 P.bpf P.v6 P.fuel fd)

  abbrev set_readings : (Readings → Readings) → Exec (World P) (Unit {0})
  set_readings f = modify P (λ w. record w { readings = f w.readings })

  -- The two dumps may fail: what was assigned before the failure stays.
  unfoldable pub dump_allowlists : ℕ → Exec (World P) (Unit {0})
  dump_allowlists now = do
    d ← dump_v4 fds.allowlist
    modify P (λ w. record w { allowlist_cache = d })
    if_open fds.allowlist_v6
        (λ fd. do d6 ← dump_v6 fd; modify P (λ w. record w { allowlist_v6_cache = d6 })) (pure tt)
    modify P (λ w. record w { allowlist_ts = now })

  unfoldable pub refresh_allowlists : Args → ℕ → Exec (World P) (Unit {0})
  refresh_allowlists args now w =
      if leb args.allowlist_refresh_sec (now - w.allowlist_ts)
      then except_os_error (dump_allowlists now) (pure tt) w
      else (ok tt, w)

  unfoldable pub dump_maps : Exec (World P) (Unit {0})
  dump_maps = do
    b ← dump_v4 fds.blacklist
    set_readings (λ r. record r { curr_blacklist = b })
    c ← dump_v4 fds.meter
    set_readings (λ r. record r { curr_counts = c })
    if_open fds.blacklist_v6
        (λ fd. do b6 ← dump_v6 fd; set_readings (λ r. record r { curr_blacklist_v6 = b6 }))
        (pure tt)
    if_open fds.meter_v6
        (λ fd. do c6 ← dump_v6 fd; set_readings (λ r. record r { curr_counts_v6 = c6 })) (pure tt)
    t ← on_kernel P (get_global_tokens P.bpf fds.global_rate)
    set_readings (λ r. record r { global_tokens = t })

  unfoldable pub read_maps : Exec (World P) (Unit {0})
  read_maps = do set_readings (λ r. no_readings); except_os_error dump_maps (pure tt)
