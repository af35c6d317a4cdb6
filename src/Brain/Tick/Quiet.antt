-- ===== src/Brain/Tick/Quiet.antt =====
-- What the reads of a round leave alone.
use flux_guard.Base.{
  ℕ, zero, suc, ◌-◌, ◌≡◌, refl, sym, subst, ◌∙◌, Option, none, some, leb, if◌then◌else◌, arith,
  Bool-cases, inl, inr,
}
use flux_guard.Base.Dict.{Dict}
use flux_guard.Base.Exec.{Result, ok, err, Exec, pure, ◌>>=◌, except_os_error}
use flux_guard.Brain.State.{Platform, Args, Fds, Readings, World, if_open, on_kernel, modify}
use flux_guard.Brain.Kernel.{no_readings, dump_allowlists, refresh_allowlists, dump_maps, read_maps}

module _ {P : Platform} where
  -- The same blocks, metrics, log and checkpoint file.
  pub record SameBlocks (w w' : World P) : Type 0 where
    pub blocked : w'.blocked_until ≡ w.blocked_until
    pub metrics : w'.metrics ≡ w.metrics
    pub disk : w'.disk ≡ w.disk
    pub log : w'.log ≡ w.log
    pub tokens : w'.prev_global_tokens ≡ w.prev_global_tokens

  pub SameBlocks-refl : (w : World P) → SameBlocks w w
  SameBlocks-refl w = record {
    blocked = refl;
    metrics = refl;
    disk = refl;
    log = refl;
    tokens = refl;
  }

  pub SameBlocks-trans : (u v w : World P) → SameBlocks u v → SameBlocks v w → SameBlocks u w
  SameBlocks-trans u v w g h = record {
    blocked = h.blocked ∙ g.blocked;
    metrics = h.metrics ∙ g.metrics;
    disk = h.disk ∙ g.disk;
    log = h.log ∙ g.log;
    tokens = h.tokens ∙ g.tokens;
  }

  pub record IsQuiet {A : Type 0} (m : Exec (World P) A) : Type 0 where
    pub at : (w : World P) → SameBlocks w (m w).1

  pub IsQuiet-pure : {A : Type 0} (a : A) → IsQuiet (pure a)
  IsQuiet-pure a = record { at = SameBlocks-refl }

  pub IsQuiet-on_kernel : {A : Type 0} (m : Exec P.bpf.State A) → IsQuiet (on_kernel P m)
  unfolding on_kernel
  IsQuiet-on_kernel m = record {
    at = λ w. record { blocked = refl; metrics = refl; disk = refl; log = refl; tokens = refl };
  }

  pub IsQuiet-bind :
      {A B : Type 0} (m : Exec (World P) A) (f : A → Exec (World P) B)
      → IsQuiet m
      → ((a : A) → IsQuiet (f a))
      → IsQuiet (m >>= f)
  IsQuiet-bind {A} {B} m f qm qf = record { at = λ w. go w (m w).0 (m w).1 (qm.at w) }
    where
      go :
          (w : World P) (r : Result A) (w' : World P)
          → SameBlocks w w'
          → SameBlocks w
              (elim r as (λ _. Result B × World P) [ ok a ↦ f a w' | err e ↦ (err e, w') ]).1
      go w (ok a) w' h = SameBlocks-trans w w' (f a w').1 h ((qf a).at w')
      go w (err e) w' h = h

  pub IsQuiet-if_open :
      (fd : Option ℕ) (f : ℕ → Exec (World P) (Unit {0})) (m : Exec (World P) (Unit {0}))
      → ((n : ℕ) → IsQuiet (f n))
      → IsQuiet m
      → IsQuiet (if_open fd f m)
  IsQuiet-if_open none f m qf qm = qm
  IsQuiet-if_open (some zero) f m qf qm = qm
  IsQuiet-if_open (some (suc n)) f m qf qm = qf (suc n)

  state-except_os_error :
      (m : Exec (World P) (Unit {0})) (w : World P) → (except_os_error m (pure tt) w).1 ≡ (m w).1
  state-except_os_error m w = ground arith

  pub IsQuiet-except :
      (m : Exec (World P) (Unit {0})) → IsQuiet m → IsQuiet (except_os_error m (pure tt))
  IsQuiet-except m q = record {
    at = λ w. subst (SameBlocks w) (sym (state-except_os_error m w)) (q.at w);
  }

  -- A write to any other variable.
  IsQuiet-modify :
      (f : World P → World P) → ((w : World P) → SameBlocks w (f w)) → IsQuiet (modify P f)
  IsQuiet-modify f h = record { at = h }

  IsQuiet-cache : (d : Dict ℕ) → IsQuiet (modify P (λ w. record w { allowlist_cache = d }))
  IsQuiet-cache d =
      IsQuiet-modify _
        λ w. record { blocked = refl; metrics = refl; disk = refl; log = refl; tokens = refl }

  IsQuiet-cache_v6 : (d : Dict ℕ) → IsQuiet (modify P (λ w. record w { allowlist_v6_cache = d }))
  IsQuiet-cache_v6 d =
      IsQuiet-modify _
        λ w. record { blocked = refl; metrics = refl; disk = refl; log = refl; tokens = refl }

  IsQuiet-ts : (now : ℕ) → IsQuiet (modify P (λ w. record w { allowlist_ts = now }))
  IsQuiet-ts now =
      IsQuiet-modify _
        λ w. record { blocked = refl; metrics = refl; disk = refl; log = refl; tokens = refl }

  IsQuiet-readings :
      (f : Readings → Readings) → IsQuiet (modify P (λ w. record w { readings = f w.readings }))
  IsQuiet-readings f =
      IsQuiet-modify _
        λ w. record { blocked = refl; metrics = refl; disk = refl; log = refl; tokens = refl }

ruleset quiet_rules = (
  IsQuiet-pure, IsQuiet-on_kernel, IsQuiet-bind, IsQuiet-if_open, IsQuiet-cache, IsQuiet-cache_v6,
  IsQuiet-ts, IsQuiet-readings,
)

module _ (P : Platform) (fds : Fds) where
  dump_allowlists-IsQuiet : (now : ℕ) → IsQuiet (dump_allowlists P fds now)
  unfolding dump_allowlists
  dump_allowlists-IsQuiet now = search quiet_rules depth 12

  dump_maps-IsQuiet : IsQuiet (dump_maps P fds)
  unfolding dump_maps
  dump_maps-IsQuiet = search quiet_rules depth 20

  pub refresh_allowlists-quiet :
      (args : Args) (now : ℕ) (w : World P) → SameBlocks w (refresh_allowlists P fds args now w).1
  unfolding refresh_allowlists
  refresh_allowlists-quiet args now w =
      elim (Bool-cases (leb args.allowlist_refresh_sec (now - w.allowlist_ts))) [
        | inl due ↦
            rw (due, if◌then◌else◌)
              ((IsQuiet-except (dump_allowlists P fds now) (dump_allowlists-IsQuiet now)).at w)
        | inr early ↦ rw (early, if◌then◌else◌) (SameBlocks-refl w)
      ]

  pub read_maps-quiet : (w : World P) → SameBlocks w (read_maps P fds w).1
  unfolding read_maps
  read_maps-quiet w =
      SameBlocks-trans w _ _ ((IsQuiet-readings (λ _. no_readings)).at w)
        ((IsQuiet-except (dump_maps P fds) dump_maps-IsQuiet).at _)
