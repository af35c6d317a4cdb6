-- ===== src/Tests/Main.antt =====
-- The whole program on a kernel that refuses all writes, with one block in the checkpoint file.
use flux_guard.Base.{◌≡◌, refl, some, [], ◌∷◌, arith, codes, has_char}
use flux_guard.Address.Ipv4
use flux_guard.Brain.State.{Checkpoint, Fds, parsed}
use flux_guard.Brain.Expire.Returns.{AllAddressed}
use flux_guard.Brain.Startup.{main, load_checkpoint, to_times}
use flux_guard.Brain.Startup.Returns.{Pinned, pin_base, main_returns}
use flux_guard.Brain.Tick.Returns.{Serves}
use flux_guard.Tests.Total.{still, frozen_maps, args, served, text, still-Serves}

abbrev pub fds : Fds
fds = record {
  meter = 4;
  blacklist = 4;
  allowlist = 4;
  global_rate = 4;
  meter_v6 = some 4;
  blacklist_v6 = some 4;
  allowlist_v6 = some 4;
}

pub fds-Serves : Serves still frozen_maps fds
fds-Serves = record {
  laws = still-Serves.laws;
  codec_v4 = still-Serves.codec_v4;
  codec_v6 = still-Serves.codec_v6;
  allowlist = λ s. served 4;
  blacklist = λ s. served 4;
  meter = λ s. served 4;
  allowlist_v6 = λ s. served 4;
  blacklist_v6 = λ s. served 4;
  meter_v6 = λ s. served 4;
  text_v4 = text;
  text_v6 = text;
  log_opens = refl;
  log = λ lines. refl;
}

fds-Pinned : Pinned still (pin_base args) fds
fds-Pinned = record {
  meter = λ s. refl;
  blacklist = λ s. refl;
  allowlist = λ s. refl;
  global_rate = λ s. refl;
  meter_v6 = λ s. refl;
  blacklist_v6 = λ s. refl;
  allowlist_v6 = λ s. refl;
}

abbrev file : Checkpoint
file = parsed ((codes "10.0.0.7", some 25) ∷ [])

file-AllAddressed : AllAddressed still (load_checkpoint file)
unfolding load_checkpoint to_times has_char Ipv4.parse
file-AllAddressed = ground arith

main_example :
    ((main still args (10 ∷ 20 ∷ 40 ∷ []) tt file).0 ≡ 0)
    × AllAddressed still (main still args (10 ∷ 20 ∷ 40 ∷ []) tt file).1.blocked_until
main_example =
    main_returns still frozen_maps args fds fds-Serves fds-Pinned (10 ∷ 20 ∷ 40 ∷ []) tt file
      file-AllAddressed
