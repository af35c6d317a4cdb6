-- ===== src/Brain/Tick/Untouched.antt =====
-- The reads of a round, by what they do to the maps of the kernel.
use flux_guard.Base.{
  ℕ, zero, suc, ◌-◌, ◌≡◌, refl, ap, ◌∙◌, Option, none, some, leb, if◌then◌else◌, arith, Bool-cases,
  inl, inr,
}
use flux_guard.Base.Dict.{Dict, lookup}
use flux_guard.Base.Exec.{Result, ok, err, Exec, pure, ◌>>=◌, except_os_error}
use flux_guard.Address.{Codec, IsCodec}
use flux_guard.Bpf.{dump_map_u32, get_global_tokens, bpf_syscall}
use flux_guard.Bpf.Laws.{HashMaps, IsHashMaps, SameMaps}
use flux_guard.Bpf.Dump.{dump_map_u32_lem}
use flux_guard.Brain.State.{Platform, Args, Fds, Readings, World, if_open, on_kernel, modify}
use flux_guard.Brain.Kernel.{no_readings, dump_allowlists, refresh_allowlists, dump_maps, read_maps}
use flux_guard.Brain.Tick.Returns.{Serves, IsServed}
use flux_guard.Brain.Tick.Reads.{allowlist_v6-served, blacklist_v6-served, meter_v6-served}
use flux_guard.Brain.Tick.Table.{after_reads}

module _ {P : Platform} (M : HashMaps P.bpf) where
  -- A step that leaves the kernel's maps as they are.
  pub record Reads {A : Type 0} (m : Exec (World P) A) : Type 0 where
    pub at : (w : World P) → SameMaps M w.kernel (m w).1.kernel

  Reads-pure : {A : Type 0} (a : A) → Reads (pure a)
  Reads-pure a = record { at = λ w g j. refl }

  Reads-bind :
      {A B : Type 0} (m : Exec (World P) A) (f : A → Exec (World P) B)
      → Reads m
      → ((a : A) → Reads (f a))
      → Reads (m >>= f)
  Reads-bind {A} {B} m f qm qf = record { at = λ w. go w (m w).0 (m w).1 (qm.at w) }
    where
      go :
          (w : World P) (r : Result A) (w' : World P)
          → SameMaps M w.kernel w'.kernel
          → SameMaps M w.kernel
              (elim r as (λ _. Result B × World P) [ ok a ↦ f a w' | err e ↦ (err e, w') ]).1.kernel
      go w (ok a) w' h = λ g j. (qf a).at w' g j ∙ h g j
      go w (err e) w' h = h

  Reads-if_open :
      (fd : Option ℕ) (f : ℕ → Exec (World P) (Unit {0})) (m : Exec (World P) (Unit {0}))
      → ((n : ℕ) → fd ≡ some n → Reads (f n))
      → Reads m
      → Reads (if_open fd f m)
  Reads-if_open none f m qf qm = qm
  Reads-if_open (some zero) f m qf qm = qm
  Reads-if_open (some (suc n)) f m qf qm = qf (suc n) refl

  Reads-except : (m : Exec (World P) (Unit {0})) → Reads m → Reads (except_os_error m (pure tt))
  Reads-except m q = record { at = λ w g j. ground (arith, q.at w g j) }

  -- A write to a variable.
  Reads-modify :
      (f : World P → World P) → ((w : World P) → (f w).kernel ≡ w.kernel) → Reads (modify P f)
  Reads-modify f h = record { at = λ w g j. ap (λ k. lookup j (M.entries g k)) (h w) }

  Reads-cache : (d : Dict ℕ) → Reads (modify P (λ w. record w { allowlist_cache = d }))
  Reads-cache d = Reads-modify _ (λ w. refl)

  Reads-cache_v6 : (d : Dict ℕ) → Reads (modify P (λ w. record w { allowlist_v6_cache = d }))
  Reads-cache_v6 d = Reads-modify _ (λ w. refl)

  Reads-ts : (now : ℕ) → Reads (modify P (λ w. record w { allowlist_ts = now }))
  Reads-ts now = Reads-modify _ (λ w. refl)

  Reads-readings :
      (f : Readings → Readings) → Reads (modify P (λ w. record w { readings = f w.readings }))
  Reads-readings f = Reads-modify _ (λ w. refl)

  -- A dump of a served map, and the look-up of the tokens.
  Reads-dump :
      (H : IsHashMaps P.bpf M) (c : Codec) (L : IsCodec c) (fd : ℕ)
      → IsServed P M c fd
      → Reads (on_kernel P (dump_map_u32 P.bpf c P.fuel fd))
  unfolding on_kernel
  Reads-dump H c L fd served = record {
    at = λ w g j.
        ap (λ r. lookup j (M.entries g r.1))
          (dump_map_u32_lem P.bpf M H c L P.fuel fd w.kernel (served w.kernel).0
            (served w.kernel).1);
  }

  Reads-tokens : IsHashMaps P.bpf M → (fd : ℕ) → Reads (on_kernel P (get_global_tokens P.bpf fd))
  unfolding on_kernel get_global_tokens bpf_syscall
  Reads-tokens H fd = record { at = λ w g j. ground (arith, H.bucket_lem fd 0 w.kernel g) }

module _ (P : Platform) (M : HashMaps P.bpf) (fds : Fds) (S : Serves P M fds) where
  dump_v4-Reads :
      (fd : ℕ) → IsServed P M P.v4 fd → Reads M (on_kernel P (dump_map_u32 P.bpf P.v4 P.fuel fd))
  dump_v4-Reads fd served = Reads-dump M S.laws P.v4 S.codec_v4 fd served

  dump_v6-Reads :
      (fd : ℕ) → IsServed P M P.v6 fd → Reads M (on_kernel P (dump_map_u32 P.bpf P.v6 P.fuel fd))
  dump_v6-Reads fd served = Reads-dump M S.laws P.v6 S.codec_v6 fd served

  tokens-Reads : (fd : ℕ) → Reads M (on_kernel P (get_global_tokens P.bpf fd))
  tokens-Reads fd = Reads-tokens M S.laws fd

  dump_allowlists-Reads : (now : ℕ) → Reads M (dump_allowlists P fds now)
  unfolding dump_allowlists
  dump_allowlists-Reads now =
      search
        (
          Reads-bind,
          Reads-if_open,
          Reads-pure,
          dump_v4-Reads,
          dump_v6-Reads,
          Reads-cache,
          Reads-cache_v6,
          Reads-ts,
          S.allowlist,
          allowlist_v6-served P M fds S,
        )
        depth 14

  dump_maps-Reads : Reads M (dump_maps P fds)
  unfolding dump_maps
  dump_maps-Reads =
      search
        (
          Reads-bind,
          Reads-if_open,
          Reads-pure,
          dump_v4-Reads,
          dump_v6-Reads,
          tokens-Reads,
          S.blacklist,
          S.meter,
          blacklist_v6-served P M fds S,
          meter_v6-served P M fds S,
        )
        depth 24

  pub refresh_allowlists-Reads :
      (args : Args) (now : ℕ) → Reads M (refresh_allowlists P fds args now)
  unfolding refresh_allowlists
  refresh_allowlists-Reads args now = record {
    at = λ w g j. elim (Bool-cases (leb args.allowlist_refresh_sec (now - w.allowlist_ts))) [
      | inl due ↦
          rw (due, if◌then◌else◌)
            ((Reads-except M (dump_allowlists P fds now) (dump_allowlists-Reads now)).at w g j)
      | inr early ↦ rw (early, if◌then◌else◌)
    ];
  }

  read_maps-Reads : Reads M (read_maps P fds)
  unfolding read_maps
  read_maps-Reads =
      Reads-bind M _ _ (Reads-readings M (λ _. no_readings))
        (λ _. Reads-except M (dump_maps P fds) dump_maps-Reads)

  -- The reads at the head of a round.
  pub after_reads-SameMaps :
      (args : Args) (now : ℕ) (w : World P)
      → SameMaps M w.kernel (after_reads P args fds now w).kernel
  unfolding after_reads
  after_reads-SameMaps args now w g j =
      read_maps-Reads.at (refresh_allowlists P fds args now w).1 g j
      ∙ (refresh_allowlists-Reads args now).at w g j
