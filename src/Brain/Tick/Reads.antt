-- ===== src/Brain/Tick/Reads.antt =====
-- The exceptions of the reads at the head of a round.
use flux_guard.Base.{
  ℕ, ◌≡◌, refl, Option, none, some, arith, leb, ◌-◌, if◌then◌else◌, Bool-cases, inl, inr,
}
use flux_guard.Base.Dict.{Dict}
use flux_guard.Base.Exec.{Exec, ◌>>=◌}
use flux_guard.Bpf.{dump_map_u32}
use flux_guard.Bpf.Laws.{HashMaps}
use flux_guard.Brain.State.{Platform, Args, Fds, World, on_kernel}
use flux_guard.Brain.Kernel.{dump_allowlists, refresh_allowlists, dump_maps, read_maps}
use flux_guard.Brain.Expire.Returns.{AllAddressed}
use flux_guard.Brain.Tick.Returns.{
  Serves, IsServed, IsServedIf, Keeps, Keeps-pure, Keeps-then, Keeps-cache, Keeps-cache_v6,
  Keeps-ts, Keeps-blacklist, Keeps-blacklist_v6, Keeps-counts, Keeps-counts_v6, Keeps-global_tokens,
  Keeps-no_readings, Keeps-if_open, Keeps-except, Keeps-dump, Keeps-tokens,
}

module _ (P : Platform) (M : HashMaps P.bpf) (fds : Fds) (S : Serves P M fds) where
  pub v6-served :
      (open_fd : Option ℕ) (n : ℕ)
      → IsServedIf P M P.v6 open_fd
      → open_fd ≡ some n
      → IsServed P M P.v6 n
  v6-served none n h e = cc
  v6-served (some fd) n h e = ground (arith, h)

  pub allowlist_v6-served : (n : ℕ) → fds.allowlist_v6 ≡ some n → IsServed P M P.v6 n
  allowlist_v6-served n e = v6-served fds.allowlist_v6 n S.allowlist_v6 e

  pub blacklist_v6-served : (n : ℕ) → fds.blacklist_v6 ≡ some n → IsServed P M P.v6 n
  blacklist_v6-served n e = v6-served fds.blacklist_v6 n S.blacklist_v6 e

  pub meter_v6-served : (n : ℕ) → fds.meter_v6 ≡ some n → IsServed P M P.v6 n
  meter_v6-served n e = v6-served fds.meter_v6 n S.meter_v6 e

  Keeps-dump_v4 :
      (fd : ℕ) (f : Dict ℕ → Exec (World P) (Unit {0}))
      → IsServed P M P.v4 fd
      → ((d : Dict ℕ) → AllAddressed P d → Keeps (f d))
      → Keeps (on_kernel P (dump_map_u32 P.bpf P.v4 P.fuel fd) >>= f)
  Keeps-dump_v4 fd f served k = Keeps-dump P M S.laws P.v4 S.codec_v4 fd f S.text_v4 served k

  Keeps-dump_v6 :
      (fd : ℕ) (f : Dict ℕ → Exec (World P) (Unit {0}))
      → IsServed P M P.v6 fd
      → ((d : Dict ℕ) → AllAddressed P d → Keeps (f d))
      → Keeps (on_kernel P (dump_map_u32 P.bpf P.v6 P.fuel fd) >>= f)
  Keeps-dump_v6 fd f served k = Keeps-dump P M S.laws P.v6 S.codec_v6 fd f S.text_v6 served k

  dump_allowlists-Keeps : (now : ℕ) → Keeps (dump_allowlists P fds now)
  unfolding dump_allowlists
  dump_allowlists-Keeps now =
      search
        (
          Keeps-then, Keeps-if_open, Keeps-pure, Keeps-dump_v4, Keeps-dump_v6, Keeps-cache,
          Keeps-cache_v6, Keeps-ts, S.allowlist, allowlist_v6-served,
        )
        depth 14

  pub refresh_allowlists-Keeps : (args : Args) (now : ℕ) → Keeps (refresh_allowlists P fds args now)
  unfolding refresh_allowlists
  refresh_allowlists-Keeps args now = record {
    at = λ w h. elim (Bool-cases (leb args.allowlist_refresh_sec (now - w.allowlist_ts))) [
      | inl due ↦
          rw (due, if◌then◌else◌)
            ((Keeps-except (dump_allowlists P fds now) (dump_allowlists-Keeps now)).at w h)
      | inr early ↦ rw (early, if◌then◌else◌) (refl, h)
    ];
  }

  dump_maps-Keeps : Keeps (dump_maps P fds)
  unfolding dump_maps
  dump_maps-Keeps =
      search
        (
          Keeps-then, Keeps-if_open, Keeps-pure, Keeps-dump_v4, Keeps-dump_v6, Keeps-tokens,
          Keeps-blacklist, Keeps-blacklist_v6, Keeps-counts, Keeps-counts_v6, Keeps-global_tokens,
          S.blacklist, S.meter, blacklist_v6-served, meter_v6-served,
        )
        depth 24

  pub read_maps-Keeps : Keeps (read_maps P fds)
  unfolding read_maps
  read_maps-Keeps =
      Keeps-then _ _ Keeps-no_readings (Keeps-except (dump_maps P fds) dump_maps-Keeps)
