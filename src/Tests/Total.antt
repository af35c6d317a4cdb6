-- ===== src/Tests/Total.antt =====
-- A run on a kernel that refuses all writes: one address is blocked for good.
use flux_guard.Base.{
  ◌^◌, ℕ, refl, true, none, [], ◌∷◌, ◌==◌, arith, if◌then◌else◌, Text, codes, length, ◌≤◌,
}
use flux_guard.Base.Dict.{Dict, lookup}
use flux_guard.Address.{IsPacked}
use flux_guard.Address.Ipv4
use flux_guard.Address.Ipv4.RoundTrip
use flux_guard.Bpf.{Bpf, reply, failed}
use flux_guard.Bpf.Dump.{AllPacked}
use flux_guard.Bpf.Keys.{ipv4, ipv4-IsCodec}
use flux_guard.Bpf.Laws.{HashMaps, IsHashMaps, or_enoent}
use flux_guard.Brain.State.{Platform, Checkpoint, Args, Fds, World, missing}
use flux_guard.Brain.Expire.Returns.{Addressed}
use flux_guard.Brain.Startup.{entered}
use flux_guard.Brain.Tick.Returns.{Serves}
use flux_guard.Tests.Sim.{next}

abbrev pub eperm : ℕ
eperm = 1

abbrev contents : ℕ → Dict ℕ
contents fd = if fd == 4 then (10 ∷ 0 ∷ 0 ∷ 9 ∷ [], 1) ∷ [] else []

abbrev frozen : Bpf
frozen = record {
  State = Unit;
  obj_get = λ path s. (reply 4, s);
  lookup_elem = λ fd k s. (or_enoent (lookup k (contents fd)), s);
  lookup_percpu = λ fd k s. (failed eperm, s);
  lookup_bucket = λ fd k s. (failed eperm, s);
  update_elem = λ fd k v s. (failed eperm, s);
  delete_elem = λ fd k s. (failed eperm, s);
  get_next_key = λ fd k s. (next k (contents fd), s);
}

abbrev pub frozen_maps : HashMaps frozen
frozen_maps = record { entries = λ fd s. contents fd; map_id = λ fd. fd }

frozen-IsHashMaps : IsHashMaps frozen frozen_maps
unfolding next lookup
frozen-IsHashMaps = record {
  nodup = λ fd s. ground arith;
  lookup_lem = λ fd k s. refl;
  first_lem = λ fd s. refl;
  next_lem = λ fd k v s h. refl;
  update_lem = λ fd k v s g j. refl;
  delete_lem = λ fd k s g j. refl;
  bucket_lem = λ fd k s g. refl;
  get_lem = λ path s g. refl;
}

-- Both families are written in dotted decimal here.
abbrev pub still : Platform
still = record {
  floats = record { one = 2 ^ 56; tenth = 7_205_759_403_792_794; nearest = λ z. z };
  log_open = none;
  log_error = λ lines. none;
  bpf = frozen;
  Disk = Checkpoint;
  read = λ d. d;
  write = λ d b. d;
  v4 = ipv4;
  v6 = ipv4;
  fuel = 1;
}

abbrev pub fds : Fds
fds = record {
  meter = 3;
  blacklist = 4;
  allowlist = 5;
  global_rate = 6;
  meter_v6 = none;
  blacklist_v6 = none;
  allowlist_v6 = none;
}

abbrev pub args : Args
args = record {
  netns = codes "lab";
  poll_interval = 200;
  cooldown_sec = 30;
  allowlist_refresh_sec = 5;
  no_log_ticks = true;
  drop_proto = none;
}

pub served : (fd : ℕ) → AllPacked 4 (contents fd) × (length (contents fd) ≤ 1)
served fd = ground arith

pub text : (k : Text) → IsPacked 4 k → Addressed still (ipv4.format k)
text k h = ground (arith, Ipv4.RoundTrip.parse-format k h)

pub still-Serves : Serves still frozen_maps fds
still-Serves = record {
  laws = frozen-IsHashMaps;
  codec_v4 = ipv4-IsCodec;
  codec_v6 = ipv4-IsCodec;
  allowlist = λ s. served 5;
  blacklist = λ s. served 4;
  meter = λ s. served 3;
  allowlist_v6 = tt;
  blacklist_v6 = tt;
  meter_v6 = tt;
  text_v4 = text;
  text_v6 = text;
  log_opens = refl;
  log = λ lines. refl;
}

abbrev pub start : World still
start = entered still tt missing
