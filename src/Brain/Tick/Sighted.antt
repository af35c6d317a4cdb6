-- ===== src/Brain/Tick/Sighted.antt =====
-- What the reads of a round show of one address of IPv4.
use flux_guard.Base.{ℕ, ◌-◌, ◌≡◌, ap, ◌∙◌, true, none, some, leb, if◌then◌else◌, arith, Text}
use flux_guard.Base.Dict.{Dict, lookup, contains_key}
use flux_guard.Base.Exec.{ok}
use flux_guard.Address.{IsPacked}
use flux_guard.Bpf.{dump_map_u32}
use flux_guard.Bpf.Laws.{HashMaps}
use flux_guard.Bpf.Dump.{shown, lookup-shown, dump_map_u32_lem}
use flux_guard.Brain.Blacklist.{entry}
use flux_guard.Brain.State.{Platform, Args, Fds, World, on_kernel}
use flux_guard.Brain.Kernel.{dump_allowlists, refresh_allowlists, dump_maps, read_maps}
use flux_guard.Brain.Tick.{round}
use flux_guard.Brain.Tick.Returns.{Serves}
use flux_guard.Brain.Tick.Inputs.{check_shields-inputs}
use flux_guard.Brain.Tick.Table.{found_in, after_reads, checked, round-inputs}
use flux_guard.Brain.Tick.Untouched.{refresh_allowlists-Reads}

module _ (P : Platform) (fds : Fds) where
  blacklist-dump_maps :
      (d : Dict ℕ) (k : P.bpf.State) (w : World P)
      → dump_map_u32 P.bpf P.v4 P.fuel fds.blacklist w.kernel ≡ (ok d, k)
      → (read_maps P fds w).1.readings.curr_blacklist ≡ d
  unfolding read_maps dump_maps on_kernel
  blacklist-dump_maps d k w e = ground (arith, e)

  allowlist-read_maps : (w : World P) → (read_maps P fds w).1.allowlist_cache ≡ w.allowlist_cache
  unfolding read_maps dump_maps on_kernel
  allowlist-read_maps w = ground arith

  allowlist-refresh_allowlists :
      (args : Args) (now : ℕ) (d : Dict ℕ) (k : P.bpf.State) (w : World P)
      → dump_map_u32 P.bpf P.v4 P.fuel fds.allowlist w.kernel ≡ (ok d, k)
      → (refresh_allowlists P fds args now w).1.allowlist_cache
        ≡ (if leb args.allowlist_refresh_sec (now - w.allowlist_ts) then d else w.allowlist_cache)
  unfolding refresh_allowlists dump_allowlists on_kernel
  allowlist-refresh_allowlists args now d k w e = ground (arith, e)

-- Neither the kernel's allowlist of IPv4 nor the brain's copy of it has the address.
abbrev pub IsUnlisted : (P : Platform) → HashMaps P.bpf → Fds → Text → World P → Type 0
IsUnlisted P M fds j w =
    (lookup (P.v4.format j) w.allowlist_cache ≡ none)
    × (lookup j (M.entries fds.allowlist w.kernel) ≡ none)

module _ (P : Platform) (M : HashMaps P.bpf) (fds : Fds) (S : Serves P M fds) (j : Text)
    (pj : IsPacked P.v4.width j) where
  blacklist-read_maps :
      (w : World P)
      → lookup (P.v4.format j) (read_maps P fds w).1.readings.curr_blacklist ≡ entry P M fds j w
  blacklist-read_maps w =
      let d = shown P.v4 (M.entries fds.blacklist w.kernel) in
      let (packed, bound) = S.blacklist w.kernel in
      let dumped =
        dump_map_u32_lem P.bpf M S.laws P.v4 S.codec_v4 P.fuel fds.blacklist w.kernel packed
          bound in
      ap (lookup (P.v4.format j)) (blacklist-dump_maps P fds d w.kernel w dumped)
      ∙ lookup-shown P.v4 S.codec_v4 j (M.entries fds.blacklist w.kernel) pj packed

  unlisted-refresh_allowlists :
      (args : Args) (now : ℕ) (w : World P)
      → IsUnlisted P M fds j w
      → lookup (P.v4.format j) (refresh_allowlists P fds args now w).1.allowlist_cache ≡ none
  unlisted-refresh_allowlists args now w (cached, listed) =
      let d = shown P.v4 (M.entries fds.allowlist w.kernel) in
      let (packed, bound) = S.allowlist w.kernel in
      let dumped =
        dump_map_u32_lem P.bpf M S.laws P.v4 S.codec_v4 P.fuel fds.allowlist w.kernel packed
          bound in
      ground (
        arith,
        allowlist-refresh_allowlists P fds args now d w.kernel w dumped,
        lookup-shown P.v4 S.codec_v4 j (M.entries fds.allowlist w.kernel) pj packed,
        cached,
        listed,
      )

  -- A round finds an address that the kernel blocks and nobody allows.
  pub round-found :
      (args : Args) (now v : ℕ) (w w' : World P)
      → entry P M fds j w ≡ some v
      → IsUnlisted P M fds j w
      → round P args fds now w ≡ (ok tt, w')
      → found_in (P.v4.format j) w' ≡ true
  unfolding checked after_reads contains_key
  round-found args now v w w' there unlisted h =
      let u = (refresh_allowlists P fds args now w).1 in
      let same = round-inputs P args fds now w w' h in
      let shields = check_shields-inputs P (read_maps P fds u).1 in
      ground (
        arith,
        same.readings,
        same.allowed,
        shields.readings,
        shields.allowed,
        allowlist-read_maps P fds u,
        unlisted-refresh_allowlists args now w unlisted,
        blacklist-read_maps u,
        (refresh_allowlists-Reads P M fds S args now).at w fds.blacklist j,
        there,
      )
