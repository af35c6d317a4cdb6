-- ===== src/Brain/Startup/Yields.antt =====
-- The steps of the start, by what they move.
use flux_guard.Base.{
  ℕ, ◌≡◌, ◌≢◌, refl, true, Option, none, some, [], ◌∷◌, arith, if◌then◌else◌, Text, has_char,
  Bool-cases, inl, inr, zero, suc,
}
use flux_guard.Base.Dict.{Dict, keys}
use flux_guard.Base.Exec.{ok, Exec, pure, except_os_error, ◌>>=◌}
use flux_guard.Address.{Codec}
use flux_guard.Bpf.{reply, bpf_obj_get, bpf_syscall, set_map_u32, set_map_u32_v6, set_proto_filter}
use flux_guard.Brain.State.{Platform, Fds, World, if_open, on_kernel}
use flux_guard.Brain.Expire.Returns.{Addressed, AllAddressed, is_caught}
use flux_guard.Brain.Startup.{set_protocol, restore_block, restore_blocks}

module _ (P : Platform) where
  -- A call returns, and has moved nothing but the kernel.
  abbrev pub Yields : {A : Type 0} → Exec (World P) A → A → World P → Type 0
  Yields m a w = (k : P.bpf.State) × (m w ≡ (ok a, record w { kernel = k }))

  pub Yields-then :
      {A B : Type 0} (m : Exec (World P) A) (f : A → Exec (World P) B) (a : A) (b : B) (w : World P)
      → Yields m a w
      → ((k : P.bpf.State) → Yields (f a) b (record w { kernel = k }))
      → Yields (m >>= f) b w
  Yields-then m f a b w (k, e) h = let (k', e') = h k in (k', ground (arith, e, e'))

  pub Yields-open :
      (path : Text) (fd : ℕ) (w : World P)
      → ((s : P.bpf.State) → (P.bpf.obj_get path s).0 ≡ reply fd)
      → Yields (on_kernel P (bpf_obj_get P.bpf path)) fd w
  unfolding on_kernel bpf_obj_get bpf_syscall
  Yields-open path fd w h = ((P.bpf.obj_get path w.kernel).1, ground (arith, h w.kernel))

  -- An `OSError` is passed over.
  pub Yields-except :
      (m : Exec P.bpf.State (Unit {0})) (w : World P)
      → is_caught (m w.kernel).0 ≡ true
      → Yields (except_os_error (on_kernel P m) (pure tt)) tt w
  unfolding on_kernel
  Yields-except m w h = ((m w.kernel).1, ground (arith, h))

  pub set_map_u32-is_caught :
      (c : Codec) (fd : ℕ) (ip : Text) (s : P.bpf.State)
      → c.parse ip ≢ none
      → is_caught (set_map_u32 P.bpf c fd ip 1 s).0 ≡ true
  unfolding set_map_u32
  set_map_u32-is_caught c fd ip s h = ground arith

  pub restore_v6 :
      (o : Option ℕ) (ip : Text) (w : World P)
      → P.v6.parse ip ≢ none
      → Yields
          (except_os_error
            (if_open o (λ fd. on_kernel P (set_map_u32_v6 P.bpf P.v6 fd ip 1)) (pure tt))
            (pure tt))
          tt
          w
  restore_v6 none ip w h = (w.kernel, refl)
  restore_v6 (some zero) ip w h = (w.kernel, refl)
  restore_v6 (some (suc fd)) ip w h =
      Yields-except (set_map_u32_v6 P.bpf P.v6 (suc fd) ip 1) w
        (set_map_u32-is_caught P.v6 (suc fd) ip w.kernel h)

  pub restore_block_returns :
      (fds : Fds) (ip : Text) (w : World P) → Addressed P ip → Yields (restore_block P fds ip) tt w
  unfolding restore_block
  restore_block_returns fds ip w h = elim (Bool-cases (has_char b':' ip)) [
    | inl colon ↦ rw (colon, if◌then◌else◌) (restore_v6 fds.blacklist_v6 ip w (rw colon at h))
    | inr plain ↦
        rw (plain, if◌then◌else◌)
          (Yields-except (set_map_u32 P.bpf P.v4 fds.blacklist ip 1) w
            (set_map_u32-is_caught P.v4 fds.blacklist ip w.kernel (rw plain at h)))
  ]

  pub restore_blocks_returns :
      (fds : Fds) (d : Dict ℕ) (w : World P)
      → AllAddressed P d
      → Yields (restore_blocks P fds (keys d)) tt w
  unfolding restore_blocks
  restore_blocks_returns fds [] w h = (w.kernel, refl)
  restore_blocks_returns fds ((ip, ts) ∷ d) w (hip, h) =
      let (k, e) = restore_block_returns fds ip w hip in
      let (k', e') = restore_blocks_returns fds d (record w { kernel = k }) h in
      (k', ground (arith, e, e'))

  pub set_protocol_returns :
      (proto : Option ℕ) (base : Text) (w : World P) → Yields (set_protocol P proto base) tt w
  unfolding set_protocol on_kernel bpf_obj_get set_proto_filter bpf_syscall
  set_protocol_returns none base w = (w.kernel, refl)
  set_protocol_returns (some proto) base w =
      ((set_protocol P (some proto) base w).1.kernel, ground arith)
