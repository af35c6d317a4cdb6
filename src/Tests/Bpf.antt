-- ===== src/Tests/Bpf.antt =====
-- The map operations on a small kernel: a blacklist with two addresses.
use flux_guard.Base.{
  ℕ, ◌%◌, ◌^◌, ◌≡◌, ◌↔◌, refl, some, [], ◌∷◌, arith, Text, codes, if◌then◌else◌, same, text_dec,
}
use flux_guard.Base.Dict.{Dict, lookup, insert, contains_key, NodupKeys}
use flux_guard.Base.Exec.{ok, err, os_error, value_error}
use flux_guard.Address.{IsPacked}
use flux_guard.Address.Ipv4
use flux_guard.Bpf.{
  enoent, bpf_syscall, ip_to_key, key_to_ip, dump_map_u32, set_map_u32, del_map_u32,
}
use flux_guard.Bpf.Dump.{shown, dump_map_u32_lem}
use flux_guard.Bpf.Writes.{dump-set_map_u32}
use flux_guard.Bpf.Keys.{ipv4, ipv4-IsCodec, ip_to_key-key_to_ip}
use flux_guard.Tests.Sim.{Maps, sim, sim_maps, sim-IsHashMaps, put, cut, delete}

abbrev host_a : Text
host_a = 10 ∷ 0 ∷ 0 ∷ 7 ∷ []

abbrev host_b : Text
host_b = 10 ∷ 0 ∷ 0 ∷ 9 ∷ []

abbrev blacklist : Dict ℕ
blacklist = (host_a, 1) ∷ (host_b, 1) ∷ []

blacklist-nodup : NodupKeys blacklist
unfolding lookup text_dec
blacklist-nodup = (refl, (refl, tt))

abbrev maps : Maps
maps fd = (blacklist, blacklist-nodup)

packed : (IsPacked 4 host_a) × (IsPacked 4 host_b)
packed = ground arith

abbrev shown_maps : Dict ℕ
shown_maps = (codes "10.0.0.7", 1) ∷ (codes "10.0.0.9", 1) ∷ []

shown-blacklist : shown ipv4 blacklist ≡ shown_maps
unfolding shown Ipv4.format
shown-blacklist = refl

dump_map_u32_example : dump_map_u32 sim ipv4 2 4 maps ≡ (ok (shown ipv4 blacklist), maps)
dump_map_u32_example =
    dump_map_u32_lem sim sim_maps sim-IsHashMaps ipv4 ipv4-IsCodec 2 4 maps
      (packed.0, (packed.1, tt)) (omega arith)

parse-host_b : ipv4.parse (codes "10.0.0.9") ≡ some host_b
unfolding Ipv4.parse
parse-host_b = refl

abbrev after_set : Maps
after_set = put 4 host_b 5 maps

set_host_b : set_map_u32 sim ipv4 4 (codes "10.0.0.9") 5 maps ≡ (ok tt, after_set)
unfolding set_map_u32 bpf_syscall ip_to_key Ipv4.parse
set_host_b = refl

dump-set_map_u32_example :
    (d : Dict ℕ) × (dump_map_u32 sim ipv4 2 4 after_set ≡ (ok d, after_set))
    × (lookup (ipv4.format host_a) d
        ≡ (if same host_a host_b then some (5 % 2 ^ 32) else lookup host_a blacklist))
unfolding put insert text_dec
dump-set_map_u32_example =
    dump-set_map_u32 sim sim_maps sim-IsHashMaps ipv4 ipv4-IsCodec 2 4 (codes "10.0.0.9") host_b 5
      maps after_set host_a packed.0 (packed.0, (packed.1, tt)) parse-host_b set_host_b
      (omega arith)

abbrev after_delete : Maps
after_delete = cut 4 host_b maps

cut_host_b : del_map_u32 sim ipv4 4 (codes "10.0.0.9") maps ≡ (ok tt, after_delete)
unfolding del_map_u32 bpf_syscall ip_to_key Ipv4.parse delete contains_key lookup text_dec
cut_host_b = refl

set_bad : set_map_u32 sim ipv4 4 (codes "10.0.0.256") 1 maps ≡ (err value_error, maps)
unfolding set_map_u32 ip_to_key Ipv4.parse
set_bad = refl

cut_missing : del_map_u32 sim ipv4 4 (codes "10.0.0.8") maps ≡ (err (os_error enoent), maps)
unfolding del_map_u32 bpf_syscall ip_to_key Ipv4.parse delete contains_key lookup text_dec
cut_missing = refl

ip_to_key-key_to_ip_example :
    (ip_to_key ipv4 (codes "10.0.0.9") maps ≡ (ok host_b, maps))
    ↔ ((key_to_ip ipv4 host_b ≡ codes "10.0.0.9") × IsPacked 4 host_b)
ip_to_key-key_to_ip_example = ip_to_key-key_to_ip (codes "10.0.0.9") host_b maps

key_host_b : ip_to_key ipv4 (codes "10.0.0.9") maps ≡ (ok host_b, maps)
unfolding ip_to_key Ipv4.parse
key_host_b = refl
