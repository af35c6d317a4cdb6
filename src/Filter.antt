-- ===== src/Filter.antt =====
-- fluxguard_kern.c: the packet filter that runs in the kernel, one packet at a time. The BPF helpers
-- and the maps behind them belong to the kernel and are a parameter.
pub mod Bucket
pub mod Verdicts
pub mod Leaves
pub mod Runs
pub mod Shields
pub mod Overload
pub mod Calm
use flux_guard.Base.{
  ℕ, ◌+◌, ◌-◌, ◌*◌, Bool, false, Option, none, some, List, [], ◌∷◌, ◌==◌, ltb, if◌then◌else◌, Text,
  length, take, drop,
}
use flux_guard.Base.Int.{pos}
use flux_guard.Bpf.{TokenBucket}
use flux_guard.Filter.Bucket.{kern_pps_limit, token_bucket_check, global_check}

pub data Verdict : Type 0 where
  xdp_pass xdp_drop : Verdict

-- The maps by their names in the source, but for the two arrays.
pub data MapId : Type 0 where
  blacklist_map meter_map allowlist_map rate_map : MapId
  blacklist_map_v6 meter_map_v6 allowlist_map_v6 rate_map_v6 : MapId
  proto_filter_map : MapId

-- `struct attack_event`, whose reason is always 1: the family, the source and the time.
pub record AttackEvent : Type 0 where
  pub af : ℕ
  pub src : Text
  pub timestamp : ℕ

-- The helpers, on the state of the kernel. A look-up returns a pointer, through which the program reads and
-- writes: `add_one` and the `set` operations are such writes. The results of updates are not
-- looked at.
pub record Helpers (State : Type 0) : Type 0 where
  pub count_packet : State → State
  pub global_rate : State → Option TokenBucket
  pub set_global_rate : TokenBucket → State → State
  pub lookup_elem : MapId → Text → State → Option ℕ
  pub update_elem : MapId → Text → ℕ → State → State
  pub add_one : MapId → Text → State → State
  pub lookup_bucket : MapId → Text → State → Option TokenBucket
  pub set_bucket : MapId → Text → TokenBucket → State → State
  pub update_bucket : MapId → Text → TokenBucket → State → State
  pub emit : AttackEvent → State → State

-- The maps of a family, and its number in events.
pub record Family : Type 0 where
  pub af : ℕ
  pub allowlist : MapId
  pub meter : MapId
  pub blacklist : MapId
  pub rate : MapId

abbrev pub inet4 : Family
inet4 = record {
  af = 4;
  allowlist = allowlist_map;
  meter = meter_map;
  blacklist = blacklist_map;
  rate = rate_map;
}

abbrev pub inet6 : Family
inet6 = record {
  af = 6;
  allowlist = allowlist_map_v6;
  meter = meter_map_v6;
  blacklist = blacklist_map_v6;
  rate = rate_map_v6;
}

-- The bucket of a source that had none, and the event of a block.
abbrev pub fresh_bucket : ℕ → TokenBucket
fresh_bucket now = record { last_time = now; tokens = pos (kern_pps_limit - 1) }

abbrev pub block_event : Family → Text → ℕ → AttackEvent
block_event f src now = record { af = f.af; src = src; timestamp = now }

module _ {S : Type 0} (H : Helpers S) where
  -- The Shields-Up bucket: whether the packet is dropped.
  unfoldable pub shields_up : ℕ → S → Bool × S
  unfolding global_check
  shields_up now s = elim (H.global_rate s) [
    | none ↦ (false, s)
    | some gtb ↦ let (gtb', dropped) = global_check gtb now in (dropped, H.set_global_rate gtb' s)
  ]

  -- 3. Meter
  unfoldable pub meter : Family → Text → S → S
  meter f src s = elim (H.lookup_elem f.meter src s) [
    | some cnt ↦ H.add_one f.meter src s
    | none ↦ H.update_elem f.meter src 1 s
  ]

  -- The block of a source, and its event.
  unfoldable pub auto_block : Family → Text → ℕ → S → S
  auto_block f src now s = H.emit (block_event f src now) (H.update_elem f.blacklist src 1 s)

  -- 5. Per-IP token bucket
  unfoldable pub check_rate : Family → Text → ℕ → S → Verdict × S
  unfolding token_bucket_check auto_block
  check_rate f src now s = elim (H.lookup_bucket f.rate src s) [
    | some tb ↦
        let (tb', dropped) = token_bucket_check tb now in
        let s' = H.set_bucket f.rate src tb' s in
        if dropped then (xdp_drop, auto_block f src now s') else (xdp_pass, s')
    | none ↦ (xdp_pass, H.update_bucket f.rate src (fresh_bucket now) s)
  ]

  -- 4. Blacklist check
  unfoldable pub check_blacklist : Family → Text → ℕ → S → Verdict × S
  unfolding check_rate
  check_blacklist f src now s = elim (H.lookup_elem f.blacklist src s) [
    | some v ↦ (xdp_drop, s)
    | none ↦ check_rate f src now s
  ]

  -- 2. Protocol filter
  unfoldable pub is_filtered : ℕ → S → Bool
  is_filtered proto s = elim (H.lookup_elem proto_filter_map (proto ∷ []) s) [
    | some action ↦ action == 1
    | none ↦ false
  ]

  -- 1. Allowlist bypass, and what is behind it.
  unfoldable pub check_source : Family → Text → ℕ → ℕ → S → Verdict × S
  unfolding is_filtered meter check_blacklist
  check_source f src proto now s = elim (H.lookup_elem f.allowlist src s) [
    | some v ↦ (xdp_pass, s)
    | none ↦
        if is_filtered proto s then (xdp_drop, s) else check_blacklist f src now (meter f src s)
  ]

-- The byte at an offset.
unfoldable pub byte_at : ℕ → List ℕ → ℕ
byte_at i data_bytes = elim (drop i data_bytes) [ [] ↦ 0 | b ∷ bs ↦ b ]

-- The headers are taken to stand one behind the other, 14 bytes of Ethernet and 20 or 40 of IP.
unfoldable pub check_packet : {S : Type 0} → Helpers S → List ℕ → ℕ → S → Verdict × S
unfolding byte_at check_source
check_packet H packet now s =
    let proto = 256 * byte_at 12 packet + byte_at 13 packet in
    if proto == 0x0800
    then if ltb (length packet) 34
      then (xdp_pass, s)
      else check_source H inet4 (take 4 (drop 26 packet)) (byte_at 23 packet) now s
    else if proto == 0x86DD
    then if ltb (length packet) 54
      then (xdp_pass, s)
      else check_source H inet6 (take 16 (drop 22 packet)) (byte_at 20 packet) now s
    else (xdp_pass, s)

unfoldable pub fluxguard_filter : {S : Type 0} → Helpers S → List ℕ → ℕ → S → Verdict × S
unfolding shields_up check_packet
fluxguard_filter H packet now s =
    if ltb (length packet) 14
    then (xdp_pass, s)
    else let (dropped, s') = shields_up H now (H.count_packet s) in
      if dropped then (xdp_drop, s') else check_packet H packet now s'
