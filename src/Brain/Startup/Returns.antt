-- ===== src/Brain/Startup/Returns.antt =====
-- The exceptions of `monitor`, from its entry.
use flux_guard.Base.{ℕ, ◌≡◌, ◌∙◌, refl, Option, none, some, List, ◌++◌, arith, Text, codes}
use flux_guard.Base.Dict.{keys}
use flux_guard.Base.Exec.{ok, Exec}
use flux_guard.Bpf.{reply, bpf_obj_get, bpf_syscall}
use flux_guard.Bpf.Laws.{HashMaps, or_enoent}
use flux_guard.Brain.State.{Platform, Args, Fds, World, on_kernel}
use flux_guard.Brain.Expire.Returns.{AllAddressed}
use flux_guard.Brain.Tick.Returns.{Serves, IsServedIf}
use flux_guard.Brain.Tick.Reads.{v6-served}
use flux_guard.Brain.Tick.Total.{rounds_return}
use flux_guard.Brain.Startup.{
  load_checkpoint, entered, open_v4, or_keep, open_v6, open_maps, load_blocks, restore_blocks,
  start, monitor, main,
}
use flux_guard.Brain.Startup.Yields.{
  Yields, Yields-open, restore_blocks_returns, set_protocol_returns,
}

-- What the kernel has pinned under a path: the four maps of IPv4, and those of IPv6 that there are.
pub record Pinned (P : Platform) (base : Text) (fds : Fds) : Type 0 where
  pub meter : (s : P.bpf.State) → (P.bpf.obj_get (base ++ codes "/meter_map") s).0 ≡ reply fds.meter
  pub blacklist :
      (s : P.bpf.State) → (P.bpf.obj_get (base ++ codes "/blacklist_map") s).0 ≡ reply fds.blacklist
  pub allowlist :
      (s : P.bpf.State) → (P.bpf.obj_get (base ++ codes "/allowlist_map") s).0 ≡ reply fds.allowlist
  pub global_rate :
      (s : P.bpf.State)
      → (P.bpf.obj_get (base ++ codes "/global_rate_map") s).0 ≡ reply fds.global_rate
  pub meter_v6 :
      (s : P.bpf.State)
      → (P.bpf.obj_get (base ++ codes "/meter_map_v6") s).0 ≡ or_enoent fds.meter_v6
  pub blacklist_v6 :
      (s : P.bpf.State)
      → (P.bpf.obj_get (base ++ codes "/blacklist_map_v6") s).0 ≡ or_enoent fds.blacklist_v6
  pub allowlist_v6 :
      (s : P.bpf.State)
      → (P.bpf.obj_get (base ++ codes "/allowlist_map_v6") s).0 ≡ or_enoent fds.allowlist_v6

-- The maps that a start opens: the same blacklist of IPv4, and no other of IPv6.
abbrev pub IsPart : Fds → Fds → Type 0
IsPart fds f =
    (f.blacklist ≡ fds.blacklist)
    × ((fd : ℕ) → f.blacklist_v6 ≡ some fd → fds.blacklist_v6 ≡ some fd)

module _ (P : Platform) (M : HashMaps P.bpf) (base : Text) (fds : Fds) (S : Serves P M fds)
    (N : Pinned P base fds) where
  open_v4_returns :
      (w : World P)
      → Yields P
          (open_v4 P base)
          (record fds { meter_v6 = none; blacklist_v6 = none; allowlist_v6 = none })
          w
  unfolding open_v4
  open_v4_returns w =
      let (k1, e1) = Yields-open P (base ++ codes "/meter_map") fds.meter w N.meter in
      let w1 : World P = record w { kernel = k1 } in
      let (k2, e2) = Yields-open P (base ++ codes "/blacklist_map") fds.blacklist w1 N.blacklist in
      let w2 : World P = record w { kernel = k2 } in
      let (k3, e3) = Yields-open P (base ++ codes "/allowlist_map") fds.allowlist w2 N.allowlist in
      let w3 : World P = record w { kernel = k3 } in
      let (k4, e4) =
        Yields-open P (base ++ codes "/global_rate_map") fds.global_rate w3 N.global_rate in
      (k4, ground (arith, e1, e2, e3, e4))

  -- A map of IPv6 that is missing ends the openings; the maps opened so far are kept.
  Served : Exec (World P) Fds → World P → Type 0
  Served m w = (f : Fds) × Serves P M f × IsPart fds f × Yields P m f w

  or_keep_returns :
      (path : Text) (o : Option ℕ) (next : ℕ → Exec (World P) Fds) (kept : Fds) (w : World P)
      → ((s : P.bpf.State) → (P.bpf.obj_get path s).0 ≡ or_enoent o)
      → Serves P M kept
      → IsPart fds kept
      → ((fd : ℕ) → o ≡ some fd → (k : P.bpf.State) → Served (next fd) (record w { kernel = k }))
      → Served (or_keep P (on_kernel P (bpf_obj_get P.bpf path)) next kept) w
  unfolding Served or_keep on_kernel bpf_obj_get bpf_syscall
  or_keep_returns path none next kept w h s part go =
      (kept, s, part, ((P.bpf.obj_get path w.kernel).1, ground (arith, h w.kernel)))
  or_keep_returns path (some fd) next kept w h s part go =
      let k = (P.bpf.obj_get path w.kernel).1 in
      let (f, sf, pf, (k', e)) = go fd refl k in (f, sf, pf, (k', ground (arith, h w.kernel, e)))

  -- With some of the maps of IPv6 the kernel serves as well.
  Serves-part :
      (a b c : Option ℕ)
      → IsServedIf P M P.v6 a
      → IsServedIf P M P.v6 b
      → IsServedIf P M P.v6 c
      → Serves P M (record fds { meter_v6 = a; blacklist_v6 = b; allowlist_v6 = c })
  Serves-part a b c ha hb hc = record {
    laws = S.laws;
    codec_v4 = S.codec_v4;
    codec_v6 = S.codec_v6;
    allowlist = S.allowlist;
    blacklist = S.blacklist;
    meter = S.meter;
    allowlist_v6 = hc;
    blacklist_v6 = hb;
    meter_v6 = ha;
    text_v4 = S.text_v4;
    text_v6 = S.text_v6;
    log_opens = S.log_opens;
    log = S.log;
  }

  open_v6_returns :
      (w : World P)
      → Served
          (open_v6 P base
            (record fds { meter_v6 = none; blacklist_v6 = none; allowlist_v6 = none }))
          w
  unfolding open_v6 Served
  open_v6_returns w =
      or_keep_returns (base ++ codes "/meter_map_v6") fds.meter_v6 _ _ w N.meter_v6
        (Serves-part none none none tt tt tt) (refl, λ fd e. ground (arith, e))
        λ a ea k1.
          let ha = v6-served P M fds S fds.meter_v6 a S.meter_v6 ea in
          or_keep_returns (base ++ codes "/blacklist_map_v6") fds.blacklist_v6 _ _
            (record w { kernel = k1 }) N.blacklist_v6 (Serves-part (some a) none none ha tt tt)
            (refl, λ fd e. ground (arith, e))
            λ b eb k2.
              let hb = v6-served P M fds S fds.blacklist_v6 b S.blacklist_v6 eb in
              or_keep_returns (base ++ codes "/allowlist_map_v6") fds.allowlist_v6 _ _
                (record w { kernel = k2 }) N.allowlist_v6
                (Serves-part (some a) (some b) none ha hb tt) (refl, λ fd e. eb ∙ e)
                λ c ec k3.
                  let hc = v6-served P M fds S fds.allowlist_v6 c S.allowlist_v6 ec in
                  (
                    _,
                    Serves-part (some a) (some b) (some c) ha hb hc,
                    (refl, λ fd e. eb ∙ e),
                    (k3, refl),
                  )

abbrev pub pin_base : Args → Text
pin_base args = codes "/sys/fs/bpf/" ++ args.netns

module _ (P : Platform) (M : HashMaps P.bpf) (args : Args) (fds : Fds) (S : Serves P M fds)
    (N : Pinned P (pin_base args) fds) where
  open_maps_returns : (w : World P) → Served P M (pin_base args) fds S N (open_maps P args) w
  unfolding open_maps Served
  open_maps_returns w =
      let (k1, e1) = open_v4_returns P M (pin_base args) fds S N w in
      let (f, s, part, (k2, e2)) =
        open_v6_returns P M (pin_base args) fds S N (record w { kernel = k1 }) in
      let (k3, e3) =
        set_protocol_returns P args.drop_proto (pin_base args) (record w { kernel = k2 }) in
      (f, s, part, (k3, ground (arith, e1, e2, e3)))

  -- The maps are opened and the table is loaded; then the blocks are written back.
  pub start_restores :
      (kernel : P.bpf.State) (disk : P.Disk)
      → AllAddressed P (load_checkpoint (P.read disk))
      → (f : Fds) × Serves P M f
        × IsPart fds f
        × (k : P.bpf.State) × (start P args (entered P kernel disk) ≡ (
          ok f,
          (restore_blocks P f
              (keys (load_checkpoint (P.read disk)))
              (load_blocks P (record (entered P kernel disk) { kernel = k }))).1,
        ))
  unfolding start load_blocks Served
  start_restores kernel disk h =
      let (f, s, part, (k1, e1)) = open_maps_returns (entered P kernel disk) in
      let w = load_blocks P (record (entered P kernel disk) { kernel = k1 }) in
      let (k2, e2) = restore_blocks_returns P f (load_checkpoint (P.read disk)) w h in
      (f, s, part, k1, ground (arith, e1, e2))

  start_returns :
      (kernel : P.bpf.State) (disk : P.Disk)
      → AllAddressed P (load_checkpoint (P.read disk))
      → (f : Fds) × Serves P M f
        × (k : P.bpf.State) × (start P args (entered P kernel disk)
            ≡ (ok f, load_blocks P (record (entered P kernel disk) { kernel = k })))
  unfolding load_blocks
  start_returns kernel disk h =
      let (f, s, _, k1, e1) = start_restores kernel disk h in
      let w = load_blocks P (record (entered P kernel disk) { kernel = k1 }) in
      let (k2, e2) = restore_blocks_returns P f (load_checkpoint (P.read disk)) w h in
      (f, s, k2, ground (arith, e1, e2))

  -- Where the log file opens and takes every line, the kernel always opens the four maps of IPv4,
  -- and opens those of IPv6 always or never, and serves the maps of the program, and every
  -- address in the checkpoint file is valid in its family: `monitor`, from its entry, through any
  -- rounds, raises nothing, whatever writes the kernel refuses, so that the program exits with
  -- status 0; and every address in its table is then valid in its family.
  pub main_returns :
      (nows : List ℕ) (kernel : P.bpf.State) (disk : P.Disk)
      → AllAddressed P (load_checkpoint (P.read disk))
      → ((main P args nows kernel disk).0 ≡ 0)
        × AllAddressed P (main P args nows kernel disk).1.blocked_until
  unfolding main monitor load_blocks
  main_returns nows kernel disk h =
      let (f, s, k, e) = start_returns kernel disk h in
      let w = load_blocks P (record (entered P kernel disk) { kernel = k }) in
      let (r, after) = rounds_return P M f s args nows w (h, tt, tt) in
      (ground (arith, e, r, S.log_opens), ground (arith, e, r, after.0, S.log_opens))
