-- ===== src/Tests/Filter.antt =====
-- The filter on the kernel with one entry, where each source has spent its tokens and one host is
-- allowed.
use flux_guard.Base.{
  ℕ, ◌+◌, ◌*◌, ◌≤◌, ◌≡◌, ◌⊎◌, refl, false, Bool, ◌&&◌, Option, none, some, List, [], ◌∷◌, ◌++◌,
  arith, if◌then◌else◌, Text, same, text_dec,
}
use flux_guard.Base.Dict.{lookup}
use flux_guard.Base.Int.{pos}
use flux_guard.Address.Ipv4
use flux_guard.Bpf.{TokenBucket}
use flux_guard.Brain.Blacklist.{entry}
use flux_guard.Brain.State.{World, missing}
use flux_guard.Brain.Startup.{entered}
use flux_guard.Brain.Tick.Sighted.{IsUnlisted}
use flux_guard.Brain.Tick.Turns.{turns, meanwhile}
use flux_guard.Brain.Tick.Defended.{turns_of, turns-defended}
use flux_guard.Filter.{
  xdp_pass, xdp_drop, MapId, blacklist_map, meter_map, allowlist_map, rate_map, blacklist_map_v6,
  meter_map_v6, allowlist_map_v6, rate_map_v6, proto_filter_map, byte_at, Helpers, inet4,
  shields_up, fluxguard_filter,
}
use flux_guard.Filter.Bucket.{
  kern_pps_limit, ns_per_sec, token_bucket_check, mirror_check, refill, refill_by,
}
use flux_guard.Filter.Bucket.Refill.{credit, token_bucket_check-mirror_check}
use flux_guard.Filter.Bucket.Rate.{passed, passed_rate}
use flux_guard.Filter.Runs.{Packets, filter_all}
use flux_guard.Filter.Verdicts.{same_map, IsHelpers, Sender, sender}
use flux_guard.Filter.Leaves.{Blocks, fluxguard_filter-Blocks, fluxguard_filter-allows}
use flux_guard.Tests.Total.{fds, args}
use flux_guard.Tests.OneEntry.{host, contents, maps, lab, lab-Serves, lab-Deletes, host-IsPacked}

abbrev pub friend : Text
friend = 10 ∷ 0 ∷ 0 ∷ 9 ∷ []

abbrev look : MapId → Text → Option ℕ → Option ℕ
look blacklist_map k s = lookup k (contents s 4)
look allowlist_map k s = if same k friend then some 1 else none
look other k s = none

abbrev takes : MapId → Text → Option ℕ → Bool
takes blacklist_map k s = same k host
takes other k s = false

abbrev spent : TokenBucket
spent = record { last_time = 0; tokens = pos 0 }

abbrev full : TokenBucket
full = record { last_time = 0; tokens = pos 500_000 }

abbrev helpers : Helpers (Option ℕ)
helpers = record {
  count_packet = λ s. s;
  global_rate = λ s. some full;
  set_global_rate = λ tb s. s;
  lookup_elem = look;
  update_elem = λ m k v s. if takes m k s then some v else s;
  add_one = λ m k s. s;
  lookup_bucket = λ m k s. some spent;
  set_bucket = λ m k tb s. s;
  update_bucket = λ m k tb s. s;
  emit = λ e s. s;
}

added :
    (m : MapId) (j : Text) (v : ℕ) (s : Option ℕ)
    → look m j (some v) ≡ (if same_map m blacklist_map && same j host then some v else look m j s)
unfolding lookup
added m j v none = ground arith
added m j v (some u) = ground arith

update_law :
    (m n : MapId) (j k : Text) (v : ℕ) (s : Option ℕ)
    → look m j (if takes n k s then some v else s)
      ≡ (if takes n k s && (same_map m n && same j k) then some v else look m j s)
unfolding text_dec
update_law m blacklist_map j k v s = elim (text_dec k host) [
  | no n ↦ ground (arith, n)
  | yes q ↦ rw q (added m j v s)
]
update_law m meter_map j k v s = refl
update_law m allowlist_map j k v s = refl
update_law m rate_map j k v s = refl
update_law m blacklist_map_v6 j k v s = refl
update_law m meter_map_v6 j k v s = refl
update_law m allowlist_map_v6 j k v s = refl
update_law m rate_map_v6 j k v s = refl
update_law m proto_filter_map j k v s = refl

helpers-IsHelpers : IsHelpers helpers
unfolding lookup
helpers-IsHelpers = record {
  takes = takes;
  count_lem = λ m j s. refl;
  global_lem = λ m j tb s. refl;
  emit_lem = λ m j e s. refl;
  add_lem = λ m n j k s p q. refl;
  set_lem = λ m n j k tb s p q. refl;
  bucket_lem = λ m n j k tb s p q. refl;
  lru_lem = λ m n j k v s p q. ground (arith, p, q);
  update_lem = λ m n j k v s p q. update_law m n j k v s;
}

-- 14 bytes of Ethernet, and the head of an IPv4 packet.
abbrev pub packet_of : Text → List ℕ
packet_of src =
    (2 ∷ 0 ∷ 0 ∷ 0 ∷ 0 ∷ 1 ∷ 2 ∷ 0 ∷ 0 ∷ 0 ∷ 0 ∷ 2 ∷ 8 ∷ 0 ∷ [])
    ++ (69 ∷ 0 ∷ 0 ∷ 20 ∷ 0 ∷ 0 ∷ 0 ∷ 0 ∷ 64 ∷ 6 ∷ 0 ∷ 0 ∷ [])
    ++ src
    ++ (10 ∷ 0 ∷ 0 ∷ 1 ∷ [])

abbrev from : Text → Sender
from src = record { family = inet4; src = src; proto = 6 }

sent_by_host : sender (packet_of host) ≡ some (from host)
unfolding sender byte_at
sent_by_host = refl

-- A mirror of the helper at 2.5 seconds.
token_bucket_check-mirror_check_example :
    token_bucket_check spent 2_500_000_000 ≡ mirror_check spent 2_500_000_000
token_bucket_check-mirror_check_example =
    token_bucket_check-mirror_check spent 2_500_000_000 (omega arith, omega arith) (omega arith)

-- A flood in one instant, and one packet a second later.
passed_rate_example :
    passed spent (0 ∷ 0 ∷ 0 ∷ 1_000_000_000 ∷ []) * ns_per_sec
    ≤ credit spent * ns_per_sec + 1_000_000_000 * kern_pps_limit
passed_rate_example =
    passed_rate spent 1_000_000_000 (0 ∷ 0 ∷ 0 ∷ 1_000_000_000 ∷ []) (omega arith) (
      omega arith,
      omega arith,
      (omega arith, omega arith, (omega arith, omega arith, (omega arith, omega arith, tt))),
    )

-- Three packets in less than four milliseconds, which is a rate below 1000 per second, use three
-- tokens and bring in two.
abbrev ten : TokenBucket
ten = record { last_time = 0; tokens = pos 10 }

abbrev next : TokenBucket → ℕ → TokenBucket
next tb now = (token_bucket_check tb now).0

drained :
    next (next (next ten 1_950_000) 3_850_000) 3_900_000
    ≡ record { last_time = 3_850_000; tokens = pos 9 }
unfolding token_bucket_check refill refill_by
drained = refl

fluxguard_filter-Blocks_example :
    (let run = fluxguard_filter helpers (packet_of host) 5 none in
      (look blacklist_map host run.1 ≡ none)
      ⊎ ((x : Sender) × (sender (packet_of host) ≡ some x)
          × Blocks helpers helpers-IsHelpers x blacklist_map host none run.1 run.0))
unfolding lookup
fluxguard_filter-Blocks_example =
    fluxguard_filter-Blocks helpers helpers-IsHelpers (packet_of host) 5 blacklist_map host none
      refl

sent_by_friend : sender (packet_of friend) ≡ some (from friend)
unfolding sender byte_at
sent_by_friend = refl

fluxguard_filter-allows_example :
    ((fluxguard_filter helpers (packet_of friend) 5 none).0
      ≡ (if (shields_up helpers 5 none).0 then xdp_drop else xdp_pass))
    × (look blacklist_map friend (fluxguard_filter helpers (packet_of friend) 5 none).1 ≡ none)
unfolding lookup text_dec
fluxguard_filter-allows_example =
    fluxguard_filter-allows helpers helpers-IsHelpers (packet_of friend) (from friend) 5 1
      blacklist_map friend none sent_by_friend refl

abbrev before : World lab
before = entered lab none missing

abbrev attack : Packets
attack = (packet_of host, 5) ∷ []

attacked : filter_all helpers attack none ≡ some 1
unfolding filter_all fluxguard_filter text_dec lookup
attacked = refl

there : entry lab maps fds host (meanwhile lab (filter_all helpers attack) before) ≡ some 1
unfolding filter_all fluxguard_filter text_dec lookup
there = refl

unlisted : IsUnlisted lab maps fds host (meanwhile lab (filter_all helpers attack) before)
unfolding filter_all fluxguard_filter text_dec lookup
unlisted = (refl, refl)

new : lookup (Ipv4.format host) before.blocked_until ≡ none
unfolding lookup
new = refl

abbrev gaps : List (Packets × ℕ)
gaps = (attack, 20) ∷ ([], 30) ∷ []

turns-defended_example :
    (fluxguard_filter helpers (packet_of host) 35 (
      filter_all helpers attack
        (turns lab args fds (turns_of lab helpers ((attack, 10) ∷ gaps)) before).1.kernel)).0
    ≡ xdp_drop
unfolding text_dec
turns-defended_example =
    turns-defended lab maps fds lab-Serves lab-Deletes helpers helpers-IsHelpers (λ j s. refl) args
      (omega arith) host host-IsPacked attack attack 10 1 35 gaps before (packet_of host) 6 tt
      (tt, tt, tt) new there unlisted (omega arith, (omega arith, tt)) sent_by_host refl
