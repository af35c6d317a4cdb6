-- ===== src/Tests/Brain.antt =====
-- A round on a small kernel: the packet filter has blocked one address, an older block is over.
use flux_guard.Base.{
  ◌^◌, ℕ, ◌+◌, ◌≤◌, length, has_char, ◌≡◌, refl, true, none, some, [], ◌∷◌, codes, text_dec,
}
use flux_guard.Base.Dict.{Dict, NodupKeys, lookup, keys}
use flux_guard.Base.Int.{pos}
use flux_guard.Base.Exec.{ok}
use flux_guard.Address.{Codec}
use flux_guard.Bpf.{bpf_syscall}
use flux_guard.Metrics
use flux_guard.Brain.State.{Platform, Checkpoint, Args, Fds, World, parsed}
use flux_guard.Brain.Kernel.{no_readings}
use flux_guard.Brain.Tick.{round, rounds, all_counts}
use flux_guard.Brain.Detect.Laws.{block_time}
use flux_guard.Brain.Expire.{expire_blocks}
use flux_guard.Brain.Expire.Laws.{still_blocked}
use flux_guard.Brain.Tick.Saved.{as_floats, Writes}
use flux_guard.Brain.Tick.Table.{found_in, round-blocked_until}
use flux_guard.Brain.Startup.{entered, monitor, load_checkpoint, to_times}
use flux_guard.Brain.Startup.Laws.{monitor-IsCounted}
use flux_guard.Bpf.Keys.{ipv4}
use flux_guard.Tests.Sim.{Maps, sim, put}

-- IPv6 addresses stand for their own keys here.
abbrev v6 : Codec
v6 = record { width = 16; parse = λ s. some s; format = λ k. k }

abbrev pub lab : Platform
lab = record {
  floats = record { one = 2 ^ 56; tenth = 7_205_759_403_792_794; nearest = λ z. z };
  log_open = none;
  log_error = λ lines. none;
  bpf = sim;
  Disk = Checkpoint;
  read = λ d. d;
  write = λ d b. parsed (as_floats b);
  v4 = ipv4;
  v6 = v6;
  fuel = 4;
}

abbrev no_maps : Maps
no_maps fd = ([], tt)

abbrev lab_maps : Maps
lab_maps = put 4 (10 ∷ 0 ∷ 0 ∷ 9 ∷ []) 1 no_maps

abbrev args : Args
args = record {
  netns = codes "lab";
  poll_interval = 300_000_000;
  cooldown_sec = 60;
  allowlist_refresh_sec = 5;
  no_log_ticks = true;
  drop_proto = none;
}

abbrev pub fds : Fds
fds = record {
  meter = 3;
  blacklist = 4;
  allowlist = 5;
  global_rate = 6;
  meter_v6 = none;
  blacklist_v6 = none;
  allowlist_v6 = none;
}

abbrev pub old_block : Dict ℕ
old_block = (codes "10.0.0.7", 8) ∷ []

abbrev pub before : World lab
before = record {
  kernel = lab_maps;
  disk = parsed (as_floats old_block);
  log = [];
  metrics = Metrics.init;
  blocked_until = old_block;
  allowlist_cache = [];
  allowlist_v6_cache = [];
  allowlist_ts = 0;
  prev_global_tokens = pos 9;
  readings = no_readings;
}

abbrev after : World lab
after = (round lab args fds 10 before).1

step : round lab args fds 10 before ≡ (ok tt, after)
unfolding round put lookup text_dec bpf_syscall flux_guard.Brain.Kernel.refresh_allowlists
    flux_guard.Brain.Kernel.dump_allowlists flux_guard.Brain.Kernel.read_maps
    flux_guard.Brain.Kernel.dump_maps flux_guard.Brain.State.on_kernel
    flux_guard.Brain.State.save_checkpoint flux_guard.Brain.State.write_json_log
    flux_guard.Bpf.dump_map_u32 flux_guard.Bpf.get_global_tokens flux_guard.Bpf.del_map_u32
    flux_guard.Bpf.dump_loop flux_guard.Bpf.ip_to_key flux_guard.Bpf.key_to_ip
    flux_guard.Bpf.store_entry flux_guard.Tests.Sim.next flux_guard.Tests.Sim.cut
    flux_guard.Tests.Sim.delete flux_guard.Base.Dict.insert flux_guard.Base.Dict.contains_key
    flux_guard.Base.Dict.erase flux_guard.Brain.Expire.expire_blocks
    flux_guard.Brain.Expire.end_blocks flux_guard.Brain.Expire.expired
    flux_guard.Brain.Expire.delete_block flux_guard.Brain.Expire.end_block
    flux_guard.Brain.Expire.forget flux_guard.Brain.Expire.note_unblock
    flux_guard.Brain.Expire.save_if_any flux_guard.Brain.Tick.detect_all
    flux_guard.Brain.Tick.all_counts flux_guard.Brain.Tick.publish flux_guard.Brain.Tick.update_dict
    flux_guard.Brain.Detect.detect_blocks flux_guard.Brain.Detect.check_shields
    flux_guard.Brain.Detect.detect_one flux_guard.Brain.Detect.start_block
    flux_guard.Metrics.inc_block_events flux_guard.Metrics.inc_global_pps_exceeded
    flux_guard.Metrics.inc_unblock_events flux_guard.Metrics.update_blocked_set
    flux_guard.Metrics.update_snapshot flux_guard.Base.has_char flux_guard.Address.Ipv4.parse
    flux_guard.Address.Ipv4.format
step = refl

-- The old block has ended, the new one lasts a cooldown from now, and the file holds the table.
after_blocked : after.blocked_until ≡ (codes "10.0.0.9", 70) ∷ []
unfolding round put lookup text_dec bpf_syscall flux_guard.Brain.Kernel.refresh_allowlists
    flux_guard.Brain.Kernel.dump_allowlists flux_guard.Brain.Kernel.read_maps
    flux_guard.Brain.Kernel.dump_maps flux_guard.Brain.State.on_kernel
    flux_guard.Brain.State.save_checkpoint flux_guard.Brain.State.write_json_log
    flux_guard.Bpf.dump_map_u32 flux_guard.Bpf.get_global_tokens flux_guard.Bpf.del_map_u32
    flux_guard.Bpf.dump_loop flux_guard.Bpf.ip_to_key flux_guard.Bpf.key_to_ip
    flux_guard.Bpf.store_entry flux_guard.Tests.Sim.next flux_guard.Tests.Sim.cut
    flux_guard.Tests.Sim.delete flux_guard.Base.Dict.insert flux_guard.Base.Dict.contains_key
    flux_guard.Base.Dict.erase flux_guard.Brain.Expire.expire_blocks
    flux_guard.Brain.Expire.end_blocks flux_guard.Brain.Expire.expired
    flux_guard.Brain.Expire.delete_block flux_guard.Brain.Expire.end_block
    flux_guard.Brain.Expire.forget flux_guard.Brain.Expire.note_unblock
    flux_guard.Brain.Expire.save_if_any flux_guard.Brain.Tick.detect_all
    flux_guard.Brain.Tick.all_counts flux_guard.Brain.Tick.publish flux_guard.Brain.Tick.update_dict
    flux_guard.Brain.Detect.detect_blocks flux_guard.Brain.Detect.check_shields
    flux_guard.Brain.Detect.detect_one flux_guard.Brain.Detect.start_block
    flux_guard.Metrics.inc_block_events flux_guard.Metrics.inc_global_pps_exceeded
    flux_guard.Metrics.inc_unblock_events flux_guard.Metrics.update_blocked_set
    flux_guard.Metrics.update_snapshot flux_guard.Base.has_char flux_guard.Address.Ipv4.parse
    flux_guard.Address.Ipv4.format flux_guard.Brain.Startup.monitor flux_guard.Brain.Startup.start
    flux_guard.Brain.Startup.open_maps flux_guard.Brain.Startup.open_v4
    flux_guard.Brain.Startup.open_v6 flux_guard.Brain.Startup.or_keep
    flux_guard.Brain.Startup.set_protocol flux_guard.Brain.Startup.load_blocks load_checkpoint
    to_times flux_guard.Brain.Startup.restore_blocks flux_guard.Brain.Startup.restore_block
    flux_guard.Bpf.set_map_u32 flux_guard.Bpf.bpf_obj_get rounds
after_blocked = refl

after_kernel : (after.kernel 4).0 ≡ (10 ∷ 0 ∷ 0 ∷ 9 ∷ [], 1) ∷ []
unfolding round put lookup text_dec bpf_syscall flux_guard.Brain.Kernel.refresh_allowlists
    flux_guard.Brain.Kernel.dump_allowlists flux_guard.Brain.Kernel.read_maps
    flux_guard.Brain.Kernel.dump_maps flux_guard.Brain.State.on_kernel
    flux_guard.Brain.State.save_checkpoint flux_guard.Brain.State.write_json_log
    flux_guard.Bpf.dump_map_u32 flux_guard.Bpf.get_global_tokens flux_guard.Bpf.del_map_u32
    flux_guard.Bpf.dump_loop flux_guard.Bpf.ip_to_key flux_guard.Bpf.key_to_ip
    flux_guard.Bpf.store_entry flux_guard.Tests.Sim.next flux_guard.Tests.Sim.cut
    flux_guard.Tests.Sim.delete flux_guard.Base.Dict.insert flux_guard.Base.Dict.contains_key
    flux_guard.Base.Dict.erase flux_guard.Brain.Expire.expire_blocks
    flux_guard.Brain.Expire.end_blocks flux_guard.Brain.Expire.expired
    flux_guard.Brain.Expire.delete_block flux_guard.Brain.Expire.end_block
    flux_guard.Brain.Expire.forget flux_guard.Brain.Expire.note_unblock
    flux_guard.Brain.Expire.save_if_any flux_guard.Brain.Tick.detect_all
    flux_guard.Brain.Tick.all_counts flux_guard.Brain.Tick.publish flux_guard.Brain.Tick.update_dict
    flux_guard.Brain.Detect.detect_blocks flux_guard.Brain.Detect.check_shields
    flux_guard.Brain.Detect.detect_one flux_guard.Brain.Detect.start_block
    flux_guard.Metrics.inc_block_events flux_guard.Metrics.inc_global_pps_exceeded
    flux_guard.Metrics.inc_unblock_events flux_guard.Metrics.update_blocked_set
    flux_guard.Metrics.update_snapshot flux_guard.Base.has_char flux_guard.Address.Ipv4.parse
    flux_guard.Address.Ipv4.format flux_guard.Brain.Startup.monitor flux_guard.Brain.Startup.start
    flux_guard.Brain.Startup.open_maps flux_guard.Brain.Startup.open_v4
    flux_guard.Brain.Startup.open_v6 flux_guard.Brain.Startup.or_keep
    flux_guard.Brain.Startup.set_protocol flux_guard.Brain.Startup.load_blocks load_checkpoint
    to_times flux_guard.Brain.Startup.restore_blocks flux_guard.Brain.Startup.restore_block
    flux_guard.Bpf.set_map_u32 flux_guard.Bpf.bpf_obj_get rounds
after_kernel = refl

pub before-nodup : NodupKeys old_block
unfolding lookup
before-nodup = (refl, tt)

round-blocked_until_example :
    lookup (codes "10.0.0.9") after.blocked_until
    ≡ still_blocked 10
        (block_time 10 60 (found_in (codes "10.0.0.9") after) (lookup (codes "10.0.0.9") old_block))
round-blocked_until_example =
    round-blocked_until lab args fds 10 (codes "10.0.0.9") before after before-nodup step

lab-Writes : Writes lab
lab-Writes d b = refl

abbrev ended : World lab
ended = (monitor lab args (10 ∷ 11 ∷ []) (entered lab lab_maps (parsed (as_floats old_block)))).1

run :
    monitor lab args (10 ∷ 11 ∷ []) (entered lab lab_maps (parsed (as_floats old_block)))
    ≡ (ok tt, ended)
unfolding round put lookup text_dec bpf_syscall flux_guard.Brain.Kernel.refresh_allowlists
    flux_guard.Brain.Kernel.dump_allowlists flux_guard.Brain.Kernel.read_maps
    flux_guard.Brain.Kernel.dump_maps flux_guard.Brain.State.on_kernel
    flux_guard.Brain.State.save_checkpoint flux_guard.Brain.State.write_json_log
    flux_guard.Bpf.dump_map_u32 flux_guard.Bpf.get_global_tokens flux_guard.Bpf.del_map_u32
    flux_guard.Bpf.dump_loop flux_guard.Bpf.ip_to_key flux_guard.Bpf.key_to_ip
    flux_guard.Bpf.store_entry flux_guard.Tests.Sim.next flux_guard.Tests.Sim.cut
    flux_guard.Tests.Sim.delete flux_guard.Base.Dict.insert flux_guard.Base.Dict.contains_key
    flux_guard.Base.Dict.erase flux_guard.Brain.Expire.expire_blocks
    flux_guard.Brain.Expire.end_blocks flux_guard.Brain.Expire.expired
    flux_guard.Brain.Expire.delete_block flux_guard.Brain.Expire.end_block
    flux_guard.Brain.Expire.forget flux_guard.Brain.Expire.note_unblock
    flux_guard.Brain.Expire.save_if_any flux_guard.Brain.Tick.detect_all
    flux_guard.Brain.Tick.all_counts flux_guard.Brain.Tick.publish flux_guard.Brain.Tick.update_dict
    flux_guard.Brain.Detect.detect_blocks flux_guard.Brain.Detect.check_shields
    flux_guard.Brain.Detect.detect_one flux_guard.Brain.Detect.start_block
    flux_guard.Metrics.inc_block_events flux_guard.Metrics.inc_global_pps_exceeded
    flux_guard.Metrics.inc_unblock_events flux_guard.Metrics.update_blocked_set
    flux_guard.Metrics.update_snapshot flux_guard.Base.has_char flux_guard.Address.Ipv4.parse
    flux_guard.Address.Ipv4.format flux_guard.Brain.Startup.monitor flux_guard.Brain.Startup.start
    flux_guard.Brain.Startup.open_maps flux_guard.Brain.Startup.open_v4
    flux_guard.Brain.Startup.open_v6 flux_guard.Brain.Startup.or_keep
    flux_guard.Brain.Startup.set_protocol flux_guard.Brain.Startup.load_blocks load_checkpoint
    to_times flux_guard.Brain.Startup.restore_blocks flux_guard.Brain.Startup.restore_block
    flux_guard.Bpf.set_map_u32 flux_guard.Bpf.bpf_obj_get rounds
run = refl

loaded-nodup : NodupKeys (load_checkpoint (parsed (as_floats old_block)))
unfolding load_checkpoint to_times lookup
loaded-nodup = (refl, tt)

monitor-IsCounted_example :
    NodupKeys ended.blocked_until
    × (ended.metrics.unblock_events + length ended.blocked_until
        ≤ length (load_checkpoint (parsed (as_floats old_block))) + ended.metrics.block_events)
monitor-IsCounted_example =
    monitor-IsCounted lab args (10 ∷ 11 ∷ []) lab_maps (parsed (as_floats old_block)) ended
      loaded-nodup run
