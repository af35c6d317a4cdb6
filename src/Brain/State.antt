-- ===== src/Brain/State.antt =====
-- What `monitor` works on: its arguments, its local variables, and the world around it. Times are
-- numbers of nanoseconds, for the floats of `time.monotonic()`, but for `poll_interval`, which is a
-- multiple of the least positive float.
use flux_guard.Base.{ℕ, zero, suc, Bool, Option, none, some, List, [], ◌∷◌, ◌++◌, Text}
use flux_guard.Base.Dict.{Dict}
use flux_guard.Base.Int.{ℤ}
use flux_guard.Base.Exec.{ok, err, os_error, Exec}
use flux_guard.Address.{Codec}
use flux_guard.Bpf.{Bpf}
use flux_guard.Metrics.{MetricsState}

-- What opening and parsing the checkpoint file gives: no file, an exception, or the object in it,
-- with `none` where `float(ts)` raises.
pub data Checkpoint : Type 0 where
  missing unreadable : Checkpoint
  parsed : Dict (Option ℕ) → Checkpoint

-- The lines of the JSON log, without their time stamps.
pub data LogEvent : Type 0 where
  shields_up : ℤ → LogEvent
  auto_block : Text → ℕ → LogEvent
  unblock : Text → ℕ → LogEvent
  tick : ℕ → ℕ → ℤ → LogEvent

-- The floats of a pause, as multiples of the least positive float: 1.0, 0.1, and the float to which
-- such a multiple is rounded.
pub record Floats : Type 0 where
  pub one : ℕ
  pub tenth : ℕ
  pub nearest : ℕ → ℕ

-- The parts of the platform that the program calls: bpf(2), the file behind PERSISTENCE_FILE (a
-- failed write is passed over, whatever it leaves), the log file (the error of opening it, and that
-- of writing the last of some lines, if there is one), the two address families, the rounds that
-- a dump may take, and the floats of a pause.
pub record Platform : Type 1 where
  pub bpf : Bpf
  pub Disk : Type 0
  pub read : Disk → Checkpoint
  pub write : Disk → Dict ℕ → Disk
  pub log_open : Option ℕ
  pub log_error : List LogEvent → Option ℕ
  pub v4 : Codec
  pub v6 : Codec
  pub fuel : ℕ
  pub floats : Floats

pub record Args : Type 0 where
  pub netns : Text
  pub poll_interval : ℕ
  pub cooldown_sec : ℕ
  pub allowlist_refresh_sec : ℕ
  pub no_log_ticks : Bool
  pub drop_proto : Option ℕ

pub record Fds : Type 0 where
  pub meter : ℕ
  pub blacklist : ℕ
  pub allowlist : ℕ
  pub global_rate : ℕ
  pub meter_v6 : Option ℕ
  pub blacklist_v6 : Option ℕ
  pub allowlist_v6 : Option ℕ

-- The variables that one round of the loop sets anew.
pub record Readings : Type 0 where
  pub curr_blacklist : Dict ℕ
  pub curr_blacklist_v6 : Dict ℕ
  pub curr_counts : Dict ℕ
  pub curr_counts_v6 : Dict ℕ
  pub global_tokens : ℤ

pub record World (P : Platform) : Type 0 where
  pub kernel : P.bpf.State
  pub disk : P.Disk
  pub log : List LogEvent
  pub metrics : MetricsState
  pub blocked_until : Dict ℕ
  pub allowlist_cache : Dict ℕ
  pub allowlist_v6_cache : Dict ℕ
  pub allowlist_ts : ℕ
  pub prev_global_tokens : ℤ
  pub readings : Readings

-- `if fd:` holds of a descriptor other than 0.
abbrev pub if_open {ℓ} : {A : Type ℓ} → Option ℕ → (ℕ → A) → A → A
if_open none f a = a
if_open (some zero) f a = a
if_open (some (suc fd)) f a = f (suc fd)

module _ (P : Platform) where
  -- A call of the kernel, made by the brain.
  unfoldable pub on_kernel : {A : Type 0} → Exec P.bpf.State A → Exec (World P) A
  on_kernel m w = let (r, k) = m w.kernel in (r, record w { kernel = k })

  abbrev pub modify : (World P → World P) → Exec (World P) (Unit {0})
  modify f w = (ok tt, f w)

  -- The line is handed to the file.
  unfoldable pub logged : LogEvent → World P → World P
  logged e w = record w { log = w.log ++ e ∷ [] }

  -- `write_json_log`: the write and the flush may raise `OSError`.
  unfoldable pub write_json_log : LogEvent → Exec (World P) (Unit {0})
  unfolding logged
  write_json_log e w =
      let w' = logged e w in
      elim (P.log_error w'.log) [ none ↦ (ok tt, w') | some errno ↦ (err (os_error errno), w') ]

  -- `save_checkpoint(blocked_until)`
  unfoldable pub save_checkpoint : World P → World P
  save_checkpoint w = record w { disk = P.write w.disk w.blocked_until }
