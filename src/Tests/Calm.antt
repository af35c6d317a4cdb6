-- ===== src/Tests/Calm.antt =====
-- The filter on a kernel with one entry in the map of buckets.
use flux_guard.Base.{
  ◌≡◌, refl, false, ◌&&◌, Option, none, some, [], ◌∷◌, arith, if◌then◌else◌, Text, same, text_dec,
  inl,
}
use flux_guard.Bpf.{TokenBucket}
use flux_guard.Filter.{MapId, rate_map, Helpers, inet4, byte_at}
use flux_guard.Filter.Runs.{Packets, filter_all}
use flux_guard.Filter.Verdicts.{same_map, IsHelpers, sender}
use flux_guard.Filter.Calm.{Fades, IsRates}
use flux_guard.Filter.Calm.Spares.{is_from, Modest, filter_all_spares}
use flux_guard.Tests.Filter.{friend, packet_of}
use flux_guard.Tests.OneEntry.{host}

abbrev look : MapId → Text → Option TokenBucket → Option TokenBucket
look m k s = if same_map m rate_map && same k host then s else none

abbrev put : MapId → Text → TokenBucket → Option TokenBucket → Option TokenBucket
put m k tb s = if same_map m rate_map && same k host then some tb else s

abbrev helpers : Helpers (Option TokenBucket)
helpers = record {
  count_packet = λ s. s;
  global_rate = λ s. none;
  set_global_rate = λ tb s. s;
  lookup_elem = λ m k s. none;
  update_elem = λ m k v s. s;
  add_one = λ m k s. s;
  lookup_bucket = look;
  set_bucket = put;
  update_bucket = put;
  emit = λ e s. s;
}

helpers-IsHelpers : IsHelpers helpers
helpers-IsHelpers = record {
  takes = λ m k s. false;
  count_lem = λ m j s. refl;
  global_lem = λ m j tb s. refl;
  emit_lem = λ m j e s. refl;
  add_lem = λ m n j k s p q. refl;
  set_lem = λ m n j k tb s p q. refl;
  bucket_lem = λ m n j k tb s p q. refl;
  lru_lem = λ m n j k v s p q. refl;
  update_lem = λ m n j k v s p q. refl;
}

put_law :
    (m n : MapId) (j k : Text) (tb : TokenBucket) (s : Option TokenBucket)
    → Fades (look m j (put n k tb s)) (if same_map m n && same j k then some tb else look m j s)
put_law m n j k tb s = ground arith

helpers-IsRates : IsRates helpers
helpers-IsRates = record {
  count_lem = λ m j s. inl refl;
  global_lem = λ m j tb s. inl refl;
  update_lem = λ m n j k v s. inl refl;
  add_lem = λ m n j k s. inl refl;
  emit_lem = λ m j e s. inl refl;
  set_lem = put_law;
  bucket_lem = put_law;
}

-- A packet of the host, two of a friend at once, and another of the host.
abbrev packets : Packets
packets =
    (packet_of host, 1_000_000)
    ∷ (packet_of friend, 1_500_000)
    ∷ (packet_of friend, 1_500_000)
    ∷ (packet_of host, 2_000_000)
    ∷ []

packets-Modest : Modest inet4 host 0 packets
unfolding is_from sender byte_at text_dec
packets-Modest = (
  λ e. (omega arith, omega arith),
  (
    λ e. absurd (ground (arith, e)),
    (λ e. absurd (ground (arith, e)), (λ e. (omega arith, omega arith), tt)),
  ),
)

filter_all_spares_example :
    helpers.lookup_elem inet4.blacklist host (filter_all helpers packets none) ≡ none
unfolding text_dec
filter_all_spares_example =
    filter_all_spares helpers helpers-IsRates helpers-IsHelpers inet4 host packets 0 none (inl refl)
      tt packets-Modest
