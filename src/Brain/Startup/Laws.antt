-- ===== src/Brain/Startup/Laws.antt =====
-- What `monitor` has in memory when its loop begins, and what holds of whole runs from there.
use flux_guard.Base.{
  ℕ, ◌+◌, ◌≤◌, ◌≡◌, sym, subst, Option, none, some, List, [], ◌∷◌, arith, Text, has_char,
  Bool-cases, inl, inr, if◌then◌else◌, length,
}
use flux_guard.Base.Dict.{Dict, keys, NodupKeys}
use flux_guard.Base.Exec.{Result-cases, Result, ok, err, os_error, Exec}
use flux_guard.Brain.State.{Platform, Args, Fds, World}
use flux_guard.Brain.Startup.{
  load_checkpoint, entered, open_v4, or_keep, open_v6, set_protocol, open_maps, restore_block,
  restore_blocks, load_blocks, start, monitor,
}
use flux_guard.Brain.Tick.{rounds}
use flux_guard.Brain.Tick.Quiet.{
  SameBlocks, SameBlocks-refl, SameBlocks-trans, IsQuiet, IsQuiet-pure, IsQuiet-on_kernel,
  IsQuiet-bind, IsQuiet-if_open, IsQuiet-except,
}
use flux_guard.Brain.Tick.Saved.{Writes, rounds-IsSaved}
use flux_guard.Brain.Tick.Counts.{IsCounted, rounds-IsCounted}

module _ (P : Platform) where
  open_v4-IsQuiet : (base : Text) → IsQuiet (open_v4 P base)
  unfolding open_v4
  open_v4-IsQuiet base = search (IsQuiet-bind, IsQuiet-pure, IsQuiet-on_kernel) depth 12

  IsQuiet-or_keep :
      (m : Exec (World P) ℕ) (next : ℕ → Exec (World P) Fds) (kept : Fds)
      → IsQuiet m
      → ((fd : ℕ) → IsQuiet (next fd))
      → IsQuiet (or_keep P m next kept)
  unfolding or_keep
  IsQuiet-or_keep m next kept q h = record { at = λ w. go w (m w).0 (m w).1 (q.at w) }
    where
      go :
          (w : World P) (r : Result ℕ) (w' : World P)
          → SameBlocks w w'
          → SameBlocks w
              (elim r as (λ _. Result Fds × World P) [
                | ok fd ↦ next fd w'
                | err e ↦ elim e [ os_error _ ↦ (ok kept, w') | other ↦ (err other, w') ]
              ]).1
      go w (ok fd) w' s = SameBlocks-trans w w' _ s ((h fd).at w')
      go w (err e) w' s = ground (arith, s)

  open_v6-IsQuiet : (base : Text) (fds : Fds) → IsQuiet (open_v6 P base fds)
  unfolding open_v6
  open_v6-IsQuiet base fds = search (IsQuiet-or_keep, IsQuiet-pure, IsQuiet-on_kernel) depth 12

  set_protocol-IsQuiet : (proto : Option ℕ) (base : Text) → IsQuiet (set_protocol P proto base)
  unfolding set_protocol
  set_protocol-IsQuiet none base = IsQuiet-pure tt
  set_protocol-IsQuiet (some proto) base =
      search (IsQuiet-except, IsQuiet-bind, IsQuiet-on_kernel) depth 8

  restore_block-IsQuiet : (fds : Fds) (ip : Text) → IsQuiet (restore_block P fds ip)
  unfolding restore_block
  restore_block-IsQuiet fds ip = elim (Bool-cases (has_char b':' ip)) [
    | inl v6 ↦
        rw (v6, if◌then◌else◌)
          (search (IsQuiet-except, IsQuiet-if_open, IsQuiet-pure, IsQuiet-on_kernel) depth 8)
    | inr v4 ↦ rw (v4, if◌then◌else◌) (search (IsQuiet-except, IsQuiet-on_kernel) depth 8)
  ]

  restore_blocks-quiet :
      (fds : Fds) (ips : List Text) (w : World P) → SameBlocks w (restore_blocks P fds ips w).1
  unfolding restore_blocks
  restore_blocks-quiet fds [] w = SameBlocks-refl w
  restore_blocks-quiet fds (ip ∷ ips) w =
      let v = (restore_block P fds ip w).1 in
      ground (
        arith,
        (restore_block-IsQuiet fds ip).at w,
        restore_blocks-quiet fds ips v,
        SameBlocks-trans w v (restore_blocks P fds ips v).1,
      )

  open_maps-IsQuiet : (args : Args) → IsQuiet (open_maps P args)
  unfolding open_maps
  open_maps-IsQuiet args =
      search (IsQuiet-bind, IsQuiet-pure, open_v4-IsQuiet, open_v6-IsQuiet, set_protocol-IsQuiet)
        depth 12

  start_steps :
      (args : Args) (w w' : World P) (fds : Fds)
      → start P args w ≡ (ok fds, w')
      → (v : World P) × SameBlocks w v
        × (w' ≡ (restore_blocks P fds (keys (load_blocks P v).blocked_until) (load_blocks P v)).1)
  unfolding start
  start_steps args w w' fds h =
      let v = (open_maps P args w).1 in (v, (open_maps-IsQuiet args).at w, ground arith)

  -- When the loop begins, the table is what the checkpoint file holds, and no counter has moved.
  pub started :
      (args : Args) (w w' : World P) (fds : Fds)
      → start P args w ≡ (ok fds, w')
      → (w'.blocked_until ≡ load_checkpoint (P.read w.disk))
        × (w'.disk ≡ w.disk)
        × (w'.metrics ≡ w.metrics)
  unfolding load_blocks
  started args w w' fds h =
      let (v, s, e) = start_steps args w w' fds h in
      let r = restore_blocks-quiet fds (keys (load_blocks P v).blocked_until) (load_blocks P v) in
      ground (arith, e, s.disk, s.metrics, r.blocked, r.disk, r.metrics)

  monitor_steps :
      (args : Args) (nows : List ℕ) (w w' : World P)
      → monitor P args nows w ≡ (ok tt, w')
      → (fds : Fds) × (v : World P) × (start P args w ≡ (ok fds, v))
        × (rounds P args fds nows v ≡ (ok tt, w'))
  unfolding monitor
  monitor_steps args nows w w' h = elim (Result-cases (start P args w).0) [
    | inl (fds, e) ↦ (fds, (start P args w).1, ground (arith, e), ground (arith, e))
    | inr (x, e) ↦ ground (arith, e)
  ]

  -- Where a written file reads back as it was written: whenever `monitor` ends without an
  -- exception, the checkpoint file holds the table of blocks in memory, whatever the file held
  -- before and whatever the kernel did.
  pub monitor-IsSaved :
      Writes P
      → (args : Args) (nows : List ℕ) (kernel : P.bpf.State) (disk : P.Disk) (w : World P)
      → monitor P args nows (entered P kernel disk) ≡ (ok tt, w)
      → load_checkpoint (P.read w.disk) ≡ w.blocked_until
  monitor-IsSaved W args nows kernel disk w h =
      let (fds, v, s, r) = monitor_steps args nows (entered P kernel disk) w h in
      let (table, file, _) = started args (entered P kernel disk) v fds s in
      rounds-IsSaved P W args fds nows v w (ground (arith, table, file)) r

  -- For a checkpoint that has each address once: whenever `monitor` ends without an exception, the
  -- table has each address once, and the unblock events and the open blocks are together at most
  -- the blocks restored and the block events.
  pub monitor-IsCounted :
      (args : Args) (nows : List ℕ) (kernel : P.bpf.State) (disk : P.Disk) (w : World P)
      → NodupKeys (load_checkpoint (P.read disk))
      → monitor P args nows (entered P kernel disk) ≡ (ok tt, w)
      → NodupKeys w.blocked_until
        × (w.metrics.unblock_events + length w.blocked_until
            ≤ length (load_checkpoint (P.read disk)) + w.metrics.block_events)
  monitor-IsCounted args nows kernel disk w u h =
      let (fds, v, s, r) = monitor_steps args nows (entered P kernel disk) w h in
      let (table, _, counters) = started args (entered P kernel disk) v fds s in
      let before : IsCounted P args fds (length (load_checkpoint (P.read disk))) v =
        ground (arith, table, counters) in
      rounds-IsCounted P args fds nows (length (load_checkpoint (P.read disk))) v w
        (subst (λ (d : Dict ℕ). NodupKeys d) (sym table) u) before r
