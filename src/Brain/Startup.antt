-- ===== src/Brain/Startup.antt =====
-- What `monitor` does before its loop: it opens the maps, sets the protocol filter, loads the
-- checkpoint and writes its blocks back to the kernel.
pub mod Laws
pub mod Yields
pub mod Returns
pub mod Restored
pub mod Looped
use flux_guard.Base.{
  ℕ, Bool, Option, none, some, List, [], ◌∷◌, ◌++◌, if◌then◌else◌, Text, codes, has_char,
}
use flux_guard.Base.Dict.{Dict, keys}
use flux_guard.Base.{String}
use flux_guard.Base.Int.{pos}
use flux_guard.Base.Exec.{ok, err, os_error, Exec, pure, ◌>>=◌, ◌>>◌, except_os_error}
use flux_guard.Bpf.{bpf_obj_get, set_map_u32, set_map_u32_v6, set_proto_filter}
use flux_guard.Metrics
use flux_guard.Brain.State.{
  Platform, Checkpoint, missing, unreadable, parsed, Args, Fds, World, if_open, on_kernel, modify,
}
use flux_guard.Brain.Kernel.{no_readings}
use flux_guard.Brain.Tick.{rounds, loop}

-- `{ip: float(ts) for ip, ts in data.items()}`; `none` where a conversion raises.
unfoldable pub to_times : Dict (Option ℕ) → Option (Dict ℕ)
to_times [] = some []
to_times ((ip, none) ∷ d) = none
to_times ((ip, some ts) ∷ d) = elim (to_times d) [ none ↦ none | some e ↦ some ((ip, ts) ∷ e) ]

or_empty : Option (Dict ℕ) → Dict ℕ
or_empty none = []
or_empty (some d) = d

-- `load_checkpoint`
unfoldable pub load_checkpoint : Checkpoint → Dict ℕ
unfolding to_times or_empty
load_checkpoint missing = []
load_checkpoint unreadable = []
load_checkpoint (parsed d) = or_empty (to_times d)

abbrev pub no_v6 : Fds → Fds
no_v6 fds = record fds { meter_v6 = none; blacklist_v6 = none; allowlist_v6 = none }

-- The state when `monitor` is entered.
abbrev pub entered : (P : Platform) → P.bpf.State → P.Disk → World P
entered P kernel disk = record {
  kernel = kernel;
  disk = disk;
  log = [];
  metrics = Metrics.init;
  blocked_until = [];
  allowlist_cache = [];
  allowlist_v6_cache = [];
  allowlist_ts = 0;
  prev_global_tokens = pos 0;
  readings = no_readings;
}

-- Where a required map is missing the program exits with status 1, as after an uncaught exception.
module _ (P : Platform) where
  abbrev open_map : Text → String → Exec (World P) ℕ
  open_map base name = on_kernel P (bpf_obj_get P.bpf (base ++ codes name))

  unfoldable pub open_v4 : Text → Exec (World P) Fds
  open_v4 base = do
    meter ← open_map base "/meter_map"
    blacklist ← open_map base "/blacklist_map"
    allowlist ← open_map base "/allowlist_map"
    global_rate ← open_map base "/global_rate_map"
    pure (record {
      meter = meter;
      blacklist = blacklist;
      allowlist = allowlist;
      global_rate = global_rate;
      meter_v6 = none;
      blacklist_v6 = none;
      allowlist_v6 = none;
    })

  -- An open map is handed on; without it what was opened so far is kept.
  unfoldable pub or_keep : Exec (World P) ℕ → (ℕ → Exec (World P) Fds) → Fds → Exec (World P) Fds
  or_keep m next kept w =
      let (r, w') = m w in
      elim r [
        | ok fd ↦ next fd w'
        | err e ↦ elim e [ os_error _ ↦ (ok kept, w') | other ↦ (err other, w') ]
      ]

  unfoldable pub open_v6 : Text → Fds → Exec (World P) Fds
  open_v6 base fds =
      or_keep (open_map base "/meter_map_v6")
        (λ a.
          let f : Fds = record fds { meter_v6 = some a } in
          or_keep (open_map base "/blacklist_map_v6")
            (λ b.
              let g : Fds = record f { blacklist_v6 = some b } in
              or_keep (open_map base "/allowlist_map_v6")
                (λ c. pure (record g { allowlist_v6 = some c })) g)
            f)
        fds

  unfoldable pub set_protocol : Option ℕ → Text → Exec (World P) (Unit {0})
  set_protocol none base = pure tt
  set_protocol (some proto) base =
      except_os_error
        (do fd ← open_map base "/proto_filter_map"; on_kernel P (set_proto_filter P.bpf fd proto 1))
        (pure tt)

  -- One persistent block goes back to the blacklist of its family; an `OSError` is passed over.
  unfoldable pub restore_block : Fds → Text → Exec (World P) (Unit {0})
  restore_block fds ip =
      except_os_error
        (if has_char b':' ip
          then if_open fds.blacklist_v6 (λ fd. on_kernel P (set_map_u32_v6 P.bpf P.v6 fd ip 1))
              (pure tt)
          else on_kernel P (set_map_u32 P.bpf P.v4 fds.blacklist ip 1))
        (pure tt)

  unfoldable pub restore_blocks : Fds → List Text → Exec (World P) (Unit {0})
  restore_blocks fds [] w = (ok tt, w)
  restore_blocks fds (ip ∷ ips) w =
      let (r, w') = restore_block fds ip w in
      elim r [ ok _ ↦ restore_blocks fds ips w' | err e ↦ (err e, w') ]

  -- `blocked_until = load_checkpoint()`
  unfoldable pub load_blocks : World P → World P
  load_blocks w = record w { blocked_until = load_checkpoint (P.read w.disk) }

  -- The maps of the network namespace, and the protocol filter.
  unfoldable pub open_maps : Args → Exec (World P) Fds
  open_maps args = do
    let base = codes "/sys/fs/bpf/" ++ args.netns
    fds4 ← open_v4 base
    fds ← open_v6 base fds4
    set_protocol args.drop_proto base
    pure fds

  unfoldable pub start : Args → Exec (World P) Fds
  start args = do
    fds ← open_maps args
    modify P load_blocks
    λ w. restore_blocks fds (keys w.blocked_until) w
    pure fds

  -- `monitor`, over the times at which the rounds start until the shutdown event is set.
  unfoldable pub monitor : Args → List ℕ → Exec (World P) (Unit {0})
  monitor args nows = do fds ← start args; rounds P args fds nows

  -- `monitor` by its polls of the shutdown event, and the clock at them.
  unfoldable pub monitor_loop : ℕ → Args → (ℕ → Bool) → (ℕ → ℕ) → Exec (World P) (Unit {0})
  monitor_loop fuel args shutdown clock = do fds ← start args; loop P fuel args fds shutdown clock 0

  -- The exit status of `main`: 1 after an exception, `sys.exit(1)` and one of opening the log file
  -- included.
  unfoldable pub main : Args → List ℕ → P.bpf.State → P.Disk → ℕ × World P
  main args nows kernel disk = elim P.log_open [
    | none ↦
        let (r, w) = monitor args nows (entered P kernel disk) in
        (elim r [ ok _ ↦ 0 | err e ↦ 1 ], w)
    | some errno ↦ (1, entered P kernel disk)
  ]
