-- ===== src/Brain/Tick/Published.antt =====
-- What the metrics show after a round.
use flux_guard.Base.{
  ℕ, zero, suc, ◌≡◌, refl, ap, ◌∙◌, Option, none, some, [], ◌∷◌, arith, Text, length,
}
use flux_guard.Base.Dict.{Dict, lookup, keys, insert, NodupKeys}
use flux_guard.Base.Dict.Laws.{lookup-insert}
use flux_guard.Base.Exec.{ok}
use flux_guard.Bpf.{dump_map_u32}
use flux_guard.Bpf.Laws.{HashMaps}
use flux_guard.Bpf.Dump.{shown, shown-NodupKeys, dump_map_u32_lem}
use flux_guard.Brain.State.{Platform, Args, Fds, World, on_kernel}
use flux_guard.Brain.Kernel.{dump_allowlists, refresh_allowlists, dump_maps, read_maps}
use flux_guard.Brain.Tick.{update_dict, all_counts, round}
use flux_guard.Brain.Tick.Returns.{Serves, IsServed, IsServedIf}
use flux_guard.Brain.Tick.Inputs.{check_shields-inputs}
use flux_guard.Brain.Tick.Table.{after_reads, checked, round-inputs}
use flux_guard.Brain.Tick.Counts.{round-snapshot}

-- The entry of the second dict, or else that of the first.
abbrev pub later : Option ℕ → Option ℕ → Option ℕ
later old none = old
later old (some v) = some v

lookup-update_dict :
    (t : Text) (d e : Dict ℕ)
    → NodupKeys e
    → lookup t (update_dict e d) ≡ later (lookup t d) (lookup t e)
unfolding update_dict lookup
lookup-update_dict t d [] u = refl
lookup-update_dict t d ((k, v) ∷ e) (fresh, u) =
    ground (arith, lookup-update_dict t (insert k v d) e u, lookup-insert t k v d, fresh)

-- The entries of a map that is open, under the texts of their keys.
abbrev pub shown_if : (P : Platform) → HashMaps P.bpf → Option ℕ → P.bpf.State → Dict ℕ
shown_if P M none s = []
shown_if P M (some zero) s = []
shown_if P M (some (suc fd)) s = shown P.v6 (M.entries (suc fd) s)

module _ (P : Platform) (M : HashMaps P.bpf) (fds : Fds) (S : Serves P M fds) where
  dumped_v4 :
      (fd : ℕ) (s : P.bpf.State)
      → IsServed P M P.v4 fd
      → dump_map_u32 P.bpf P.v4 P.fuel fd s ≡ (ok (shown P.v4 (M.entries fd s)), s)
  dumped_v4 fd s h = dump_map_u32_lem P.bpf M S.laws P.v4 S.codec_v4 P.fuel fd s (h s).0 (h s).1

  dumped_v6 :
      (fd : ℕ) (s : P.bpf.State)
      → IsServed P M P.v6 fd
      → dump_map_u32 P.bpf P.v6 P.fuel fd s ≡ (ok (shown P.v6 (M.entries fd s)), s)
  dumped_v6 fd s h = dump_map_u32_lem P.bpf M S.laws P.v6 S.codec_v6 P.fuel fd s (h s).0 (h s).1

  kernel-dump_allowlists :
      (now : ℕ) (o : Option ℕ) (w : World P)
      → fds.allowlist_v6 ≡ o
      → IsServedIf P M P.v6 o
      → (dump_allowlists P fds now w).1.kernel ≡ w.kernel
  unfolding dump_allowlists on_kernel
  kernel-dump_allowlists now none w e h =
      ground (arith, e, dumped_v4 fds.allowlist w.kernel S.allowlist)
  kernel-dump_allowlists now (some zero) w e h =
      ground (arith, e, dumped_v4 fds.allowlist w.kernel S.allowlist)
  kernel-dump_allowlists now (some (suc fd)) w e h =
      ground (arith, e, dumped_v4 fds.allowlist w.kernel S.allowlist, dumped_v6 (suc fd) w.kernel h)

  kernel-refresh_allowlists :
      (args : Args) (now : ℕ) (w : World P)
      → (refresh_allowlists P fds args now w).1.kernel ≡ w.kernel
  unfolding refresh_allowlists
  kernel-refresh_allowlists args now w =
      ground (arith, kernel-dump_allowlists now fds.allowlist_v6 w refl S.allowlist_v6)

  -- The two dicts of packet counts, as read.
  abbrev HasCounts : P.bpf.State → Option ℕ → World P → Type 0
  HasCounts s o w =
      (w.readings.curr_counts ≡ shown P.v4 (M.entries fds.meter s))
      × (w.readings.curr_counts_v6 ≡ shown_if P M o s)

  counts-read_maps :
      (b o : Option ℕ) (w : World P)
      → fds.blacklist_v6 ≡ b
      → fds.meter_v6 ≡ o
      → IsServedIf P M P.v6 b
      → IsServedIf P M P.v6 o
      → HasCounts w.kernel o (read_maps P fds w).1
  unfolding read_maps dump_maps on_kernel
  counts-read_maps none none w eb eo hb ho = ground (
    arith,
    eb,
    eo,
    dumped_v4 fds.blacklist w.kernel S.blacklist,
    dumped_v4 fds.meter w.kernel S.meter,
  )
  counts-read_maps none (some zero) w eb eo hb ho = ground (
    arith,
    eb,
    eo,
    dumped_v4 fds.blacklist w.kernel S.blacklist,
    dumped_v4 fds.meter w.kernel S.meter,
  )
  counts-read_maps none (some (suc n)) w eb eo hb ho = ground (
    arith,
    eb,
    eo,
    dumped_v4 fds.blacklist w.kernel S.blacklist,
    dumped_v4 fds.meter w.kernel S.meter,
    dumped_v6 (suc n) w.kernel ho,
  )
  counts-read_maps (some zero) none w eb eo hb ho = ground (
    arith,
    eb,
    eo,
    dumped_v4 fds.blacklist w.kernel S.blacklist,
    dumped_v4 fds.meter w.kernel S.meter,
  )
  counts-read_maps (some zero) (some zero) w eb eo hb ho = ground (
    arith,
    eb,
    eo,
    dumped_v4 fds.blacklist w.kernel S.blacklist,
    dumped_v4 fds.meter w.kernel S.meter,
  )
  counts-read_maps (some zero) (some (suc n)) w eb eo hb ho = ground (
    arith,
    eb,
    eo,
    dumped_v4 fds.blacklist w.kernel S.blacklist,
    dumped_v4 fds.meter w.kernel S.meter,
    dumped_v6 (suc n) w.kernel ho,
  )
  counts-read_maps (some (suc g)) none w eb eo hb ho = ground (
    arith,
    eb,
    eo,
    dumped_v4 fds.blacklist w.kernel S.blacklist,
    dumped_v4 fds.meter w.kernel S.meter,
    dumped_v6 (suc g) w.kernel hb,
  )
  counts-read_maps (some (suc g)) (some zero) w eb eo hb ho = ground (
    arith,
    eb,
    eo,
    dumped_v4 fds.blacklist w.kernel S.blacklist,
    dumped_v4 fds.meter w.kernel S.meter,
    dumped_v6 (suc g) w.kernel hb,
  )
  counts-read_maps (some (suc g)) (some (suc n)) w eb eo hb ho = ground (
    arith,
    eb,
    eo,
    dumped_v4 fds.blacklist w.kernel S.blacklist,
    dumped_v4 fds.meter w.kernel S.meter,
    dumped_v6 (suc g) w.kernel hb,
    dumped_v6 (suc n) w.kernel ho,
  )

  shown_if-NodupKeys :
      (o : Option ℕ) (s : P.bpf.State) → IsServedIf P M P.v6 o → NodupKeys (shown_if P M o s)
  shown_if-NodupKeys none s h = tt
  shown_if-NodupKeys (some zero) s h = tt
  shown_if-NodupKeys (some (suc fd)) s h =
      shown-NodupKeys P.v6 S.codec_v6 (M.entries (suc fd) s) (h s).0 (S.laws.nodup (suc fd) s)

  lookup-all_counts :
      (t : Text) (o : Option ℕ) (s : P.bpf.State) (w : World P)
      → HasCounts s o w
      → IsServedIf P M P.v6 o
      → lookup t (all_counts P w)
        ≡ later (lookup t (shown P.v4 (M.entries fds.meter s))) (lookup t (shown_if P M o s))
  unfolding all_counts lookup
  lookup-all_counts t o s w (e4, e6) h =
      let d4 = shown P.v4 (M.entries fds.meter s) in
      let d6 = shown_if P M o s in
      let u4 =
        shown-NodupKeys P.v4 S.codec_v4 (M.entries fds.meter s) (S.meter s).0
          (S.laws.nodup fds.meter s) in
      ground (
        arith,
        e4,
        e6,
        lookup-update_dict t (update_dict d4 []) d6 (shown_if-NodupKeys o s h),
        lookup-update_dict t [] d4 u4,
      )

  -- After a round that returns, where the kernel serves the program's maps: the metrics have the
  -- number and the addresses of the table's blocks; and the packets that they have for a text are
  -- what the kernel's counters of IPv6 had for the address of that text when the round began, or
  -- else what those of IPv4 had, or else none.
  pub round-published :
      (args : Args) (now : ℕ) (w w' : World P) (t : Text)
      → round P args fds now w ≡ (ok tt, w')
      → (w'.metrics.blocked_ips ≡ length w'.blocked_until)
        × (w'.metrics.blocked_ips_set ≡ keys w'.blocked_until)
        × (lookup t w'.metrics.packets_by_ip
            ≡ later
                (lookup t (shown P.v4 (M.entries fds.meter w.kernel)))
                (lookup t (shown_if P M fds.meter_v6 w.kernel)))
  unfolding checked after_reads
  round-published args now w w' t h =
      let (size, addresses, packets) = round-snapshot P args fds now w w' h in
      let u = (refresh_allowlists P fds args now w).1 in
      let (c4, c6) =
        counts-read_maps fds.blacklist_v6 fds.meter_v6 u refl refl S.blacklist_v6 S.meter_v6 in
      let same_readings =
        (round-inputs P args fds now w w' h).readings
        ∙ (check_shields-inputs P (read_maps P fds u).1).readings in
      let k = kernel-refresh_allowlists args now w in
      let counts : HasCounts w.kernel fds.meter_v6 w' = (
        ap (λ r. r.curr_counts) same_readings ∙ c4 ∙ ap (λ s. shown P.v4 (M.entries fds.meter s)) k,
        ap (λ r. r.curr_counts_v6) same_readings ∙ c6 ∙ ap (shown_if P M fds.meter_v6) k,
      ) in
      (
        size,
        addresses,
        ap (lookup t) packets ∙ lookup-all_counts t fds.meter_v6 w.kernel w' counts S.meter_v6,
      )
