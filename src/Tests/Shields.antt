-- ===== src/Tests/Shields.antt =====
-- The filter on a kernel whose state is the Shields-Up bucket.
use flux_guard.Base.{ℕ, ◌+◌, ◌*◌, ◌≤◌, ◌≡◌, refl, none, some, List, [], ◌∷◌, ◌++◌, arith}
use flux_guard.Base.Int.{pos}
use flux_guard.Bpf.{TokenBucket}
use flux_guard.Filter.{Helpers}
use flux_guard.Filter.Bucket.{global_pps_limit, ns_per_sec, debt}
use flux_guard.Filter.Runs.{Packets, passed_all}
use flux_guard.Filter.Shields.{IsBucket, passed_all_rate}
use flux_guard.Filter.Overload.{Dense, passed_all_overloaded}

abbrev helpers : Helpers TokenBucket
helpers = record {
  count_packet = λ s. s;
  global_rate = λ s. some s;
  set_global_rate = λ tb s. tb;
  lookup_elem = λ m k s. none;
  update_elem = λ m k v s. s;
  add_one = λ m k s. s;
  lookup_bucket = λ m k s. none;
  set_bucket = λ m k tb s. s;
  update_bucket = λ m k tb s. s;
  emit = λ e s. s;
}

helpers-IsBucket : IsBucket helpers
helpers-IsBucket = record {
  write_lem = λ tb gtb s e. refl;
  count_lem = λ s. refl;
  update_lem = λ m k v s. refl;
  add_lem = λ m k s. refl;
  set_lem = λ m k tb s. refl;
  bucket_lem = λ m k tb s. refl;
  emit_lem = λ e s. refl;
}

-- An Ethernet header of ARP.
abbrev arp : List ℕ
arp = (2 ∷ 0 ∷ 0 ∷ 0 ∷ 0 ∷ 1 ∷ []) ++ (2 ∷ 0 ∷ 0 ∷ 0 ∷ 0 ∷ 2 ∷ 8 ∷ 6 ∷ [])

abbrev one_left : TokenBucket
one_left = record { last_time = 0; tokens = pos 1 }

abbrev packets : Packets
packets = (arp, 5) ∷ (arp, 7) ∷ (arp, 1_900) ∷ (arp, 3_800) ∷ []

passed_all_rate_example :
    passed_all helpers packets one_left * ns_per_sec ≤ 1 * ns_per_sec + 4_000 * global_pps_limit
passed_all_rate_example =
    passed_all_rate helpers helpers-IsBucket packets 4_000 one_left one_left refl (omega arith) (
      omega arith,
      omega arith,
      (omega arith, omega arith, (omega arith, omega arith, (omega arith, omega arith, tt))),
    )

abbrev at_floor : TokenBucket
at_floor = record { last_time = 0; tokens = debt }

packets-Dense : Dense 0 packets
packets-Dense = (
  refl,
  omega arith,
  omega arith,
  omega arith,
  (
    refl,
    omega arith,
    omega arith,
    omega arith,
    (
      refl,
      omega arith,
      omega arith,
      omega arith,
      (refl, omega arith, omega arith, omega arith, tt),
    ),
  ),
)

passed_all_overloaded_example : passed_all helpers packets at_floor ≡ 0
passed_all_overloaded_example =
    passed_all_overloaded helpers helpers-IsBucket packets at_floor at_floor refl refl packets-Dense
