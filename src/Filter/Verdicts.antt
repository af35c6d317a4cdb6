-- ===== src/Filter/Verdicts.antt =====
-- What the filter decides about a packet, and what it leaves in the maps that hold no more than they
-- are told to: the allowlists, the blacklists and the protocol filter.
use flux_guard.Base.{
  ℕ, ◌+◌, ◌*◌, ◌≤◌, ◌≡◌, Bool, true, false, ◌&&◌, not, Option, none, some, List, ◌==◌, ltb,
  if◌then◌else◌, arith, Text, same, length, take, drop,
}
use flux_guard.Bpf.{TokenBucket}
use flux_guard.Filter.{
  xdp_pass, MapId, blacklist_map, meter_map, allowlist_map, rate_map, blacklist_map_v6,
  meter_map_v6, allowlist_map_v6, rate_map_v6, proto_filter_map, AttackEvent, Helpers, Family,
  inet4, inet6, check_source, byte_at, check_packet,
}

-- An LRU map may drop entries of its own.
abbrev pub is_lru : MapId → Bool
is_lru meter_map = true
is_lru rate_map = true
is_lru meter_map_v6 = true
is_lru rate_map_v6 = true
is_lru other = false

abbrev pub same_map : MapId → MapId → Bool
same_map blacklist_map blacklist_map = true
same_map meter_map meter_map = true
same_map allowlist_map allowlist_map = true
same_map rate_map rate_map = true
same_map blacklist_map_v6 blacklist_map_v6 = true
same_map meter_map_v6 meter_map_v6 = true
same_map allowlist_map_v6 allowlist_map_v6 = true
same_map rate_map_v6 rate_map_v6 = true
same_map proto_filter_map proto_filter_map = true
same_map m n = false

-- What is documented of the helpers: nothing but an update changes the entries of a hash map, and
-- an update writes its own entry, if the map has room for it. `takes` says whether it has.
pub record IsHelpers {S : Type 0} (H : Helpers S) : Type 0 where
  pub takes : MapId → Text → S → Bool
  pub count_lem :
      (m : MapId) (j : Text) (s : S) → H.lookup_elem m j (H.count_packet s) ≡ H.lookup_elem m j s
  pub global_lem :
      (m : MapId) (j : Text) (tb : TokenBucket) (s : S)
      → H.lookup_elem m j (H.set_global_rate tb s) ≡ H.lookup_elem m j s
  pub emit_lem :
      (m : MapId) (j : Text) (e : AttackEvent) (s : S)
      → H.lookup_elem m j (H.emit e s) ≡ H.lookup_elem m j s
  pub add_lem :
      (m n : MapId) (j k : Text) (s : S)
      → is_lru m ≡ false
      → is_lru n ≡ true
      → H.lookup_elem m j (H.add_one n k s) ≡ H.lookup_elem m j s
  pub set_lem :
      (m n : MapId) (j k : Text) (tb : TokenBucket) (s : S)
      → is_lru m ≡ false
      → is_lru n ≡ true
      → H.lookup_elem m j (H.set_bucket n k tb s) ≡ H.lookup_elem m j s
  pub bucket_lem :
      (m n : MapId) (j k : Text) (tb : TokenBucket) (s : S)
      → is_lru m ≡ false
      → is_lru n ≡ true
      → H.lookup_elem m j (H.update_bucket n k tb s) ≡ H.lookup_elem m j s
  pub lru_lem :
      (m n : MapId) (j k : Text) (v : ℕ) (s : S)
      → is_lru m ≡ false
      → is_lru n ≡ true
      → H.lookup_elem m j (H.update_elem n k v s) ≡ H.lookup_elem m j s
  pub update_lem :
      (m n : MapId) (j k : Text) (v : ℕ) (s : S)
      → is_lru m ≡ false
      → is_lru n ≡ false
      → H.lookup_elem m j (H.update_elem n k v s)
        ≡ (if takes n k s && (same_map m n && same j k) then some v else H.lookup_elem m j s)

-- The family, the source and the protocol of an IP packet that is long enough.
pub record Sender : Type 0 where
  pub family : Family
  pub src : Text
  pub proto : ℕ

abbrev pub v4_sender : List ℕ → Sender
v4_sender packet = record {
  family = inet4;
  src = take 4 (drop 26 packet);
  proto = byte_at 23 packet;
}

abbrev pub v6_sender : List ℕ → Sender
v6_sender packet = record {
  family = inet6;
  src = take 16 (drop 22 packet);
  proto = byte_at 20 packet;
}

unfoldable pub sender : List ℕ → Option Sender
sender packet =
    let proto = 256 * byte_at 12 packet + byte_at 13 packet in
    if proto == 0x0800 && not (ltb (length packet) 34)
    then some (v4_sender packet)
    else if proto == 0x86DD && not (ltb (length packet) 54)
    then some (v6_sender packet)
    else none

-- The maps of a family are of their kinds.
pub record IsFamily (f : Family) : Type 0 where
  pub allowlist : is_lru f.allowlist ≡ false
  pub blacklist : is_lru f.blacklist ≡ false
  pub meter : is_lru f.meter ≡ true
  pub rate : is_lru f.rate ≡ true
  pub apart : same_map f.allowlist f.blacklist ≡ false

pub sender-IsFamily : (packet : List ℕ) (x : Sender) → sender packet ≡ some x → IsFamily x.family
unfolding sender
sender-IsFamily packet x e = ground (arith, e)

pub sender-blacklist :
    (packet : List ℕ) (x : Sender)
    → sender packet ≡ some x
    → same_map allowlist_map x.family.blacklist ≡ false
unfolding sender
sender-blacklist packet x e = ground (arith, e)

pub sender-length : (packet : List ℕ) (x : Sender) → sender packet ≡ some x → 14 ≤ length packet
unfolding sender
sender-length packet x e = ground (arith, e)

module _ {S : Type 0} (H : Helpers S) where
  -- What is no IP packet, or too short for one, passes.
  pub check_packet_lem :
      (packet : List ℕ) (now : ℕ) (s : S)
      → check_packet H packet now s ≡ (elim (sender packet) [
        | none ↦ (xdp_pass, s)
        | some x ↦ check_source H x.family x.src x.proto now s
      ])
  unfolding check_packet sender
  check_packet_lem packet now s = ground arith
