-- ===== src/Allow.antt =====
-- fluxguard_allow.py: the command line for the allowlists.
pub mod Outcome
pub mod Laws
use flux_guard.Base.{
  ℕ, zero, suc, Bool, true, false, Option, none, some, List, [], ◌∷◌, ◌++◌, if◌then◌else◌, Text,
}
use flux_guard.Base.Dict.{keys}
use flux_guard.Base.Exec.{ok, err, Error, os_error, value_error, Exec, pure, ◌>>=◌, ◌>>◌}
use flux_guard.Address.{Codec}
use flux_guard.Bpf.{
  Bpf, bpf_obj_get, dump_map_u32, dump_map_u32_v6, set_map_u32, set_map_u32_v6, del_map_u32,
  del_map_u32_v6,
}
use flux_guard.Metrics.{sorted_texts}

pub data Action : Type 0 where
  add del list : Action

-- The arguments; the two paths have defaults.
pub record Args : Type 0 where
  pub action : Action
  pub ip : Option Text
  pub map_path_v4 : Text
  pub map_path_v6 : Text

-- What is printed, by its meaning. A Boolean tells the family: true for IPv6.
pub data Line : Type 0 where
  cannot_access : Text → Line
  listing : Bool → List Text → Line
  not_loaded list_failed ip_required v6_not_found : Line
  added removed : Bool → Text → Line
  change_failed : Text → Line

pub record Shell (S : Type 0) : Type 0 where
  pub kernel : S
  pub out : List Line

unfoldable pub is_os_error : Error → Bool
is_os_error (os_error e) = true
is_os_error e = false

-- `OSError` or `ValueError`
unfoldable pub is_os_or_value_error : Error → Bool
is_os_or_value_error (os_error e) = true
is_os_or_value_error value_error = true
is_os_or_value_error e = false

module _ (B : Bpf) where
  abbrev pub Run : Type 0 → Type 0
  Run A = Exec (Shell B.State) A

  unfoldable pub on_kernel : {A : Type 0} → Exec B.State A → Run A
  on_kernel m w = let (r, k) = m w.kernel in (r, record w { kernel = k })

  unfoldable pub print : Line → Run (Unit {0})
  print l w = (ok tt, record w { out = w.out ++ l ∷ [] })

  -- An error message and the exit status 1.
  unfoldable pub fail : Line → Run ℕ
  unfolding print
  fail l = do print l; pure 1

  -- `try: m except caught: h`, where `m` falls through to `k`.
  unfoldable pub guarded : {A : Type 0} → (Error → Bool) → Run A → Run ℕ → (A → Run ℕ) → Run ℕ
  guarded caught m h k w =
      let (r, w') = m w in elim r [ ok a ↦ k a w' | err e ↦ if caught e then h w' else (err e, w') ]

-- `is_ipv6`
unfoldable pub is_ipv6 : Codec → Text → Bool
is_ipv6 v6 addr = elim (v6.parse addr) [ none ↦ false | some k ↦ true ]

module _ (B : Bpf) (v4 v6 : Codec) (fuel : ℕ) where
  unfoldable pub list_v6 : Option ℕ → Run B (Unit {0})
  list_v6 none = print B not_loaded
  list_v6 (some zero) = print B not_loaded
  list_v6 (some (suc fd)) = do
    entries ← on_kernel B (dump_map_u32_v6 B v6 fuel (suc fd))
    print B (listing true (sorted_texts (keys entries)))

  unfoldable pub list_all : ℕ → Option ℕ → Run B (Unit {0})
  list_all fd_v4 fd_v6 = do
    entries ← on_kernel B (dump_map_u32 B v4 fuel fd_v4)
    print B (listing false (sorted_texts (keys entries)))
    list_v6 fd_v6

  -- The `add` and `del` commands, for an address that is given.
  unfoldable pub change_v4 : Action → ℕ → Text → Run B ℕ
  change_v4 add fd ip =
      guarded B is_os_or_value_error (on_kernel B (set_map_u32 B v4 fd ip 1))
        (fail B (change_failed ip)) (λ _. do print B (added false ip); pure 0)
  change_v4 del fd ip =
      guarded B is_os_or_value_error (on_kernel B (del_map_u32 B v4 fd ip))
        (fail B (change_failed ip)) (λ _. do print B (removed false ip); pure 0)
  change_v4 list fd ip = pure 0

  unfoldable pub change_v6 : Action → ℕ → Text → Run B ℕ
  change_v6 add fd ip =
      guarded B is_os_or_value_error (on_kernel B (set_map_u32_v6 B v6 fd ip 1))
        (fail B (change_failed ip)) (λ _. do print B (added true ip); pure 0)
  change_v6 del fd ip =
      guarded B is_os_or_value_error (on_kernel B (del_map_u32_v6 B v6 fd ip))
        (fail B (change_failed ip)) (λ _. do print B (removed true ip); pure 0)
  change_v6 list fd ip = pure 0

  unfoldable pub change_v6_if : Action → Option ℕ → Text → Run B ℕ
  change_v6_if action none ip = fail B v6_not_found
  change_v6_if action (some fd) ip = change_v6 action fd ip

  unfoldable pub change : Action → ℕ → Option ℕ → Text → Run B ℕ
  change action fd_v4 fd_v6 ip =
      if is_ipv6 v6 ip then change_v6_if action fd_v6 ip else change_v4 action fd_v4 ip

  -- `if not args.ip` holds without the argument and of the empty text.
  unfoldable pub change_given : Action → ℕ → Option ℕ → Option Text → Run B ℕ
  change_given action fd_v4 fd_v6 none = fail B ip_required
  change_given action fd_v4 fd_v6 (some []) = fail B ip_required
  change_given action fd_v4 fd_v6 (some (c ∷ ip)) = change action fd_v4 fd_v6 (c ∷ ip)

  unfoldable pub dispatch : Action → Option Text → ℕ → Option ℕ → Run B ℕ
  dispatch list ip fd_v4 fd_v6 =
      guarded B is_os_error (list_all fd_v4 fd_v6) (fail B list_failed) (λ _. pure 0)
  dispatch add ip fd_v4 fd_v6 = change_given add fd_v4 fd_v6 ip
  dispatch del ip fd_v4 fd_v6 = change_given del fd_v4 fd_v6 ip

  -- `main`; the result is the exit status.
  unfoldable pub main : Args → Run B ℕ
  main args =
      guarded B is_os_error (on_kernel B (bpf_obj_get B args.map_path_v4))
        (fail B (cannot_access args.map_path_v4))
        (λ fd_v4.
          guarded B is_os_error (on_kernel B (bpf_obj_get B args.map_path_v6))
            (dispatch args.action args.ip fd_v4 none)
            (λ fd_v6. dispatch args.action args.ip fd_v4 (some fd_v6)))
