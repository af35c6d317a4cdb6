-- ===== src/Brain/Tick/Returns.antt =====
-- What it is for the kernel to serve the maps, and steps that raise nothing.
use flux_guard.Base.{ℕ, zero, suc, ◌≤◌, ◌≡◌, refl, Option, none, some, [], ◌∷◌, arith, Text, length}
use flux_guard.Base.Dict.{Dict}
use flux_guard.Base.Int.{ℤ, pos}
use flux_guard.Base.Exec.{ok, Exec, pure, ◌>>=◌, ◌>>◌, except_os_error}
use flux_guard.Address.{Codec, IsCodec, IsPacked}
use flux_guard.Bpf.{
  Bpf, Reply, failed, reply, TokenBucket, dump_map_u32, get_global_tokens, bpf_syscall,
}
use flux_guard.Bpf.Laws.{HashMaps, IsHashMaps}
use flux_guard.Bpf.Dump.{AllPacked, shown, dump_map_u32_lem}
use flux_guard.Brain.State.{Platform, Fds, World, if_open, on_kernel, modify}
use flux_guard.Brain.Detect.Logged.{Logs}
use flux_guard.Brain.Kernel.{no_readings}
use flux_guard.Brain.Expire.Returns.{Addressed, AllAddressed}

-- In every state of the kernel the keys of the map have the width of the family, and the map has
-- at most as many entries as a dump has rounds.
abbrev pub IsServed : (P : Platform) → HashMaps P.bpf → Codec → ℕ → Type 0
IsServed P M c fd =
    (s : P.bpf.State) → AllPacked c.width (M.entries fd s) × (length (M.entries fd s) ≤ P.fuel)

abbrev pub IsServedIf : (P : Platform) → HashMaps P.bpf → Codec → Option ℕ → Type 0
IsServedIf P M c none = Unit
IsServedIf P M c (some fd) = IsServed P M c fd

-- The maps are lawful and bounded, the text of every key is an address of its family, and the log
-- file can be opened and takes every line.
pub record Serves (P : Platform) (M : HashMaps P.bpf) (fds : Fds) : Type 0 where
  pub laws : IsHashMaps P.bpf M
  pub codec_v4 : IsCodec P.v4
  pub codec_v6 : IsCodec P.v6
  pub allowlist : IsServed P M P.v4 fds.allowlist
  pub blacklist : IsServed P M P.v4 fds.blacklist
  pub meter : IsServed P M P.v4 fds.meter
  pub allowlist_v6 : IsServedIf P M P.v6 fds.allowlist_v6
  pub blacklist_v6 : IsServedIf P M P.v6 fds.blacklist_v6
  pub meter_v6 : IsServedIf P M P.v6 fds.meter_v6
  pub text_v4 : (k : Text) → IsPacked P.v4.width k → Addressed P (P.v4.format k)
  pub text_v6 : (k : Text) → IsPacked P.v6.width k → Addressed P (P.v6.format k)
  pub log_opens : P.log_open ≡ none
  pub log : Logs P

module _ (P : Platform) (M : HashMaps P.bpf) where
  shown-AllAddressed :
      (c : Codec) (d : Dict ℕ)
      → ((k : Text) → IsPacked c.width k → Addressed P (c.format k))
      → AllPacked c.width d
      → AllAddressed P (shown c d)
  unfolding shown
  shown-AllAddressed c [] t p = tt
  shown-AllAddressed c ((k, v) ∷ d) t (pk, p) = (t k pk, shown-AllAddressed c d t p)

  -- A dump of a served map returns addresses.
  dump-AllAddressed :
      (H : IsHashMaps P.bpf M) (c : Codec) (L : IsCodec c) (fd : ℕ) (s : P.bpf.State)
      → ((k : Text) → IsPacked c.width k → Addressed P (c.format k))
      → IsServed P M c fd
      → (d : Dict ℕ) × (dump_map_u32 P.bpf c P.fuel fd s ≡ (ok d, s)) × AllAddressed P d
  dump-AllAddressed H c L fd s t served = (
    shown c (M.entries fd s),
    dump_map_u32_lem P.bpf M H c L P.fuel fd s (served s).0 (served s).1,
    shown-AllAddressed c (M.entries fd s) t (served s).0,
  )

-- Every address in the table and in the blacklists as read is valid in its family.
abbrev pub IsAddressed : (P : Platform) → World P → Type 0
IsAddressed P w =
    AllAddressed P w.blocked_until
    × AllAddressed P w.readings.curr_blacklist
    × AllAddressed P w.readings.curr_blacklist_v6

-- A step that raises nothing and keeps the addresses valid.
pub record Keeps {P : Platform} (m : Exec (World P) (Unit {0})) : Type 0 where
  pub at : (w : World P) → IsAddressed P w → ((m w).0 ≡ ok tt) × IsAddressed P (m w).1

module _ {P : Platform} where
  pub Keeps-pure : Keeps {P = P} (pure tt)
  Keeps-pure = record { at = λ w h. (refl, h) }

  pub Keeps-then : (m n : Exec (World P) (Unit {0})) → Keeps m → Keeps n → Keeps (m >> n)
  Keeps-then m n km kn = record {
    at = λ w h.
        let (r, h') = km.at w h in let (r', h'') = kn.at (m w).1 h' in ground (arith, r, r', h'');
  }

  pub Keeps-modify :
      (f : World P → World P)
      → ((w : World P) → IsAddressed P w → IsAddressed P (f w))
      → Keeps (modify P f)
  Keeps-modify f h = record { at = λ w i. (refl, h w i) }

  -- The assignments.
  pub Keeps-cache : (d : Dict ℕ) → Keeps (modify P (λ w. record w { allowlist_cache = d }))
  Keeps-cache d = record { at = λ w h. (refl, h) }

  pub Keeps-cache_v6 : (d : Dict ℕ) → Keeps (modify P (λ w. record w { allowlist_v6_cache = d }))
  Keeps-cache_v6 d = record { at = λ w h. (refl, h) }

  pub Keeps-ts : (now : ℕ) → Keeps (modify P (λ w. record w { allowlist_ts = now }))
  Keeps-ts now = record { at = λ w h. (refl, h) }

  pub Keeps-blacklist :
      (d : Dict ℕ)
      → AllAddressed P d
      → Keeps (modify P (λ w. record w { readings = record w.readings { curr_blacklist = d } }))
  Keeps-blacklist d a = record { at = λ w h. (refl, (h.0, a, h.2)) }

  pub Keeps-blacklist_v6 :
      (d : Dict ℕ)
      → AllAddressed P d
      → Keeps (modify P (λ w. record w { readings = record w.readings { curr_blacklist_v6 = d } }))
  Keeps-blacklist_v6 d a = record { at = λ w h. (refl, (h.0, h.1, a)) }

  pub Keeps-counts :
      (d : Dict ℕ)
      → Keeps (modify P (λ w. record w { readings = record w.readings { curr_counts = d } }))
  Keeps-counts d = record { at = λ w h. (refl, h) }

  pub Keeps-counts_v6 :
      (d : Dict ℕ)
      → Keeps (modify P (λ w. record w { readings = record w.readings { curr_counts_v6 = d } }))
  Keeps-counts_v6 d = record { at = λ w h. (refl, h) }

  pub Keeps-global_tokens :
      (t : ℤ)
      → Keeps (modify P (λ w. record w { readings = record w.readings { global_tokens = t } }))
  Keeps-global_tokens t = record { at = λ w h. (refl, h) }

  pub Keeps-no_readings : Keeps (modify P (λ w. record w { readings = no_readings }))
  Keeps-no_readings = record { at = λ w h. (refl, (h.0, tt, tt)) }

  pub Keeps-if_open :
      (fd : Option ℕ) (f : ℕ → Exec (World P) (Unit {0})) (m : Exec (World P) (Unit {0}))
      → ((n : ℕ) → fd ≡ some n → Keeps (f n))
      → Keeps m
      → Keeps (if_open fd f m)
  Keeps-if_open none f m kf km = km
  Keeps-if_open (some zero) f m kf km = km
  Keeps-if_open (some (suc n)) f m kf km = kf (suc n) refl

  pub Keeps-except : (m : Exec (World P) (Unit {0})) → Keeps m → Keeps (except_os_error m (pure tt))
  Keeps-except m k = record { at = λ w h. let (r, h') = k.at w h in ground (arith, r, h') }

get_global_tokens_returns :
    (B : Bpf) (fd : ℕ) (s : B.State)
    → (t : ℤ) × (get_global_tokens B fd s ≡ (ok t, (get_global_tokens B fd s).1))
unfolding get_global_tokens bpf_syscall
get_global_tokens_returns B fd s = go (B.lookup_bucket fd 0 s).0 refl
  where
    go :
        (r : Reply TokenBucket)
        → (B.lookup_bucket fd 0 s).0 ≡ r
        → (t : ℤ) × (get_global_tokens B fd s ≡ (ok t, (get_global_tokens B fd s).1))
    go (failed e) h = (pos 0, ground (arith, h))
    go (reply v) h = (v.tokens, ground (arith, h))

module _ (P : Platform) (M : HashMaps P.bpf) where
  pub Keeps-dump :
      (H : IsHashMaps P.bpf M) (c : Codec) (L : IsCodec c) (fd : ℕ)
      (f : Dict ℕ → Exec (World P) (Unit {0}))
      → ((k : Text) → IsPacked c.width k → Addressed P (c.format k))
      → IsServed P M c fd
      → ((d : Dict ℕ) → AllAddressed P d → Keeps (f d))
      → Keeps (on_kernel P (dump_map_u32 P.bpf c P.fuel fd) >>= f)
  unfolding on_kernel
  Keeps-dump H c L fd f t served k = record {
    at = λ w h.
        let (d, e, a) = dump-AllAddressed P M H c L fd w.kernel t served in
        let (r, h') = (k d a).at w h in ground (arith, e, r, h');
  }

  pub Keeps-tokens :
      (fd : ℕ) (f : ℤ → Exec (World P) (Unit {0}))
      → ((t : ℤ) → Keeps (f t))
      → Keeps (on_kernel P (get_global_tokens P.bpf fd) >>= f)
  unfolding on_kernel
  Keeps-tokens fd f k = record {
    at = λ w h.
        let (t, e) = get_global_tokens_returns P.bpf fd w.kernel in
        let (r, h') = (k t).at (record w { kernel = (get_global_tokens P.bpf fd w.kernel).1 }) h in
        ground (arith, e, r, h');
  }
