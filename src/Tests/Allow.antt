-- ===== src/Tests/Allow.antt =====
-- The allowlist command line on a small kernel without IPv6 maps.
use flux_guard.Base.{◌≡◌, refl, none, some, [], ◌∷◌, arith, codes}
use flux_guard.Address.{Codec}
use flux_guard.Address.Ipv4
use flux_guard.Bpf.Keys.{ipv4}
use flux_guard.Allow
use flux_guard.Allow.{Args, Shell}
use flux_guard.Allow.Outcome.{Outcome, codec_of, path_of}
use flux_guard.Allow.Laws.{left_by, main-change}
use flux_guard.Tests.Sim.{Maps, sim, sim_maps, sim-IsHashMaps}

abbrev no_v6 : Codec
no_v6 = record { width = 16; parse = λ s. none; format = λ k. k }

abbrev empty_maps : Maps
empty_maps fd = ([], tt)

abbrev shell : Shell Maps
shell = record { kernel = empty_maps; out = [] }

abbrev args : Allow.Action → Args
args action = record {
  action = action;
  ip = some (codes "10.0.1.5");
  map_path_v4 = codes "/sys/fs/bpf/lab/allowlist_map";
  map_path_v6 = codes "/sys/fs/bpf/lab/allowlist_map_v6";
}

main-change_example :
    Outcome sim_maps
      (codec_of ipv4 no_v6 (codes "10.0.1.5"))
      (path_of no_v6 (args Allow.add) (codes "10.0.1.5"))
      (codes "10.0.1.5")
      (left_by Allow.add)
      empty_maps
      (Allow.main sim ipv4 no_v6 4 (args Allow.add) shell).0
      (Allow.main sim ipv4 no_v6 4 (args Allow.add) shell).1.kernel
main-change_example =
    main-change sim sim_maps sim-IsHashMaps ipv4 no_v6 4 (args Allow.add) b'1' (codes "0.0.1.5")
      shell (ground arith) refl

-- The address is there after `add`.
added :
    ((Allow.main sim ipv4 no_v6 4 (args Allow.add) shell).1.kernel 5).0
    ≡ (10 ∷ 0 ∷ 1 ∷ 5 ∷ [], 1) ∷ []
unfolding Allow.main Allow.guarded Allow.on_kernel flux_guard.Bpf.bpf_obj_get
    flux_guard.Base.Dict.lookup flux_guard.Base.text_dec Allow.is_os_error Allow.dispatch
    Allow.change_given Allow.change Allow.is_ipv6 Allow.change_v4 flux_guard.Bpf.set_map_u32
    Ipv4.parse Allow.print flux_guard.Tests.Sim.put flux_guard.Base.Dict.insert
    flux_guard.Bpf.bpf_syscall flux_guard.Bpf.ip_to_key
added = refl
