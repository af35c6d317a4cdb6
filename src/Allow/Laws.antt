-- ===== src/Allow/Laws.antt =====
-- The exit status of the allowlist command line, and what it does to the maps.
use flux_guard.Base.{
  ℕ, ◌≡◌, ◌≢◌, refl, sym, ◌∙◌, subst, true, Option, none, some, ◌∷◌, arith, if◌then◌else◌, Text,
  Bool-cases, inl, inr, ◌⊎◌, same,
}
use flux_guard.Base.Exec.{Result, ok}
use flux_guard.Address.{Codec}
use flux_guard.Bpf.{Bpf, bpf_obj_get, set_map_u32, del_map_u32, Reply, reply, failed, bpf_syscall}
use flux_guard.Bpf.Laws.{HashMaps, IsHashMaps, SameMaps}
use flux_guard.Allow.{
  Action, add, del, list, Args, Line, Shell, is_os_error, Run, on_kernel, print, fail, guarded,
  is_ipv6, change_v4, change_v6, change_v6_if, change, change_given, dispatch, main,
}
use flux_guard.Allow.Outcome.{
  codec_of, path_of, IsOpen, IsOpenIf, Outcome, set_map_u32-Outcome, del_map_u32-Outcome,
  guarded-Outcome,
}

-- What a command leaves under the key of the address.
abbrev pub left_by : Action → Option ℕ
left_by add = some 1
left_by other = none

module _ (B : Bpf) (M : HashMaps B) (H : IsHashMaps B M) (v4 v6 : Codec) (fuel : ℕ) where
  abbrev ChangeOutcome : Args → Text → Option ℕ → Shell B.State → Run B ℕ → Type 0
  ChangeOutcome args ip o w run =
      Outcome M (codec_of v4 v6 ip) (path_of v6 args ip) ip o w.kernel (run w).0 (run w).1.kernel

  no_map :
      (args : Args) (ip : Text) (o : Option ℕ) (l : Line) (w : Shell B.State)
      → ChangeOutcome args ip o w (fail B l)
  unfolding fail print
  no_map args ip o l w = inl (refl, λ g j. refl)

  add-outcome_v6 :
      (args : Args) (fd : Option ℕ) (ip : Text) (w : Shell B.State)
      → is_ipv6 v6 ip ≡ true
      → IsOpenIf B args.map_path_v6 fd
      → ChangeOutcome args ip (some 1) w (change_v6_if B v4 v6 fuel add fd ip)
  unfolding change_v6_if change_v6
  add-outcome_v6 args none ip w six opened = no_map args ip (some 1) _ w
  add-outcome_v6 args (some fd) ip w six opened =
      rw (six, if◌then◌else◌)
        (guarded-Outcome B M v6 args.map_path_v6 fd ip (some 1) (set_map_u32 B v6 fd ip 1) _ _ w
          opened (set_map_u32-Outcome B M H v6 fd ip w.kernel))

  add-Outcome :
      (args : Args) (fd_v4 : ℕ) (fd_v6 : Option ℕ) (ip : Text) (w : Shell B.State)
      → IsOpen B args.map_path_v4 fd_v4
      → IsOpenIf B args.map_path_v6 fd_v6
      → ChangeOutcome args ip (some 1) w (change B v4 v6 fuel add fd_v4 fd_v6 ip)
  unfolding change change_v4
  add-Outcome args fd_v4 fd_v6 ip w o4 o6 = elim (Bool-cases (is_ipv6 v6 ip)) [
    | inl six ↦
        rw (six, if◌then◌else◌) (rw (six, if◌then◌else◌) at (add-outcome_v6 args fd_v6 ip w six o6))
    | inr four ↦
        rw (four, if◌then◌else◌)
          (guarded-Outcome B M v4 args.map_path_v4 fd_v4 ip (some 1) (set_map_u32 B v4 fd_v4 ip 1) _
            _ w o4 (set_map_u32-Outcome B M H v4 fd_v4 ip w.kernel))
  ]

  del-outcome_v6 :
      (args : Args) (fd : Option ℕ) (ip : Text) (w : Shell B.State)
      → is_ipv6 v6 ip ≡ true
      → IsOpenIf B args.map_path_v6 fd
      → ChangeOutcome args ip (none) w (change_v6_if B v4 v6 fuel del fd ip)
  unfolding change_v6_if change_v6
  del-outcome_v6 args none ip w six opened = no_map args ip (none) _ w
  del-outcome_v6 args (some fd) ip w six opened =
      rw (six, if◌then◌else◌)
        (guarded-Outcome B M v6 args.map_path_v6 fd ip (none) (del_map_u32 B v6 fd ip) _ _ w opened
          (del_map_u32-Outcome B M H v6 fd ip w.kernel))

  del-Outcome :
      (args : Args) (fd_v4 : ℕ) (fd_v6 : Option ℕ) (ip : Text) (w : Shell B.State)
      → IsOpen B args.map_path_v4 fd_v4
      → IsOpenIf B args.map_path_v6 fd_v6
      → ChangeOutcome args ip (none) w (change B v4 v6 fuel del fd_v4 fd_v6 ip)
  unfolding change change_v4
  del-Outcome args fd_v4 fd_v6 ip w o4 o6 = elim (Bool-cases (is_ipv6 v6 ip)) [
    | inl six ↦
        rw (six, if◌then◌else◌) (rw (six, if◌then◌else◌) at (del-outcome_v6 args fd_v6 ip w six o6))
    | inr four ↦
        rw (four, if◌then◌else◌)
          (guarded-Outcome B M v4 args.map_path_v4 fd_v4 ip (none) (del_map_u32 B v4 fd_v4 ip) _ _ w
            o4 (del_map_u32-Outcome B M H v4 fd_v4 ip w.kernel))
  ]

  -- `main` gives up at the IPv4 map, or it goes on with the maps that it has opened.
  main_steps :
      (args : Args) (w : Shell B.State)
      → (((main B v4 v6 fuel args w).0 ≡ ok 1)
          × SameMaps M w.kernel (main B v4 v6 fuel args w).1.kernel)
        ⊎ ((fd_v4 : ℕ) × (fd_v6 : Option ℕ) × (v : Shell B.State) × IsOpen B args.map_path_v4 fd_v4
            × IsOpenIf B args.map_path_v6 fd_v6
            × SameMaps M w.kernel v.kernel
            × (main B v4 v6 fuel args w ≡ dispatch B v4 v6 fuel args.action args.ip fd_v4 fd_v6 v))
  unfolding main guarded on_kernel bpf_obj_get bpf_syscall fail print is_os_error
  main_steps args w = first (B.obj_get args.map_path_v4 w.kernel).0 refl
    where
      s1 : B.State
      s1 = (B.obj_get args.map_path_v4 w.kernel).1

      s2 : B.State
      s2 = (B.obj_get args.map_path_v6 s1).1

      same1 : SameMaps M w.kernel s1
      same1 g j = ground (arith, H.get_lem args.map_path_v4 w.kernel g)

      same2 : SameMaps M w.kernel s2
      same2 g j = ground (arith, same1 g j, H.get_lem args.map_path_v6 s1 g)

      second :
          (fd_v4 : ℕ) (r : Reply ℕ)
          → (B.obj_get args.map_path_v4 w.kernel).0 ≡ reply fd_v4
          → (B.obj_get args.map_path_v6 s1).0 ≡ r
          → (fd_v6 : Option ℕ) × (v : Shell B.State) × IsOpenIf B args.map_path_v6 fd_v6
            × SameMaps M w.kernel v.kernel
            × (main B v4 v6 fuel args w ≡ dispatch B v4 v6 fuel args.action args.ip fd_v4 fd_v6 v)
      second fd_v4 (failed e) h h' =
          (none, record w { kernel = s2 }, tt, same2, ground (arith, h, h'))
      second fd_v4 (reply fd) h h' =
          (some fd, record w { kernel = s2 }, (s1, h'), same2, ground (arith, h, h'))

      first :
          (r : Reply ℕ)
          → (B.obj_get args.map_path_v4 w.kernel).0 ≡ r
          → (((main B v4 v6 fuel args w).0 ≡ ok 1)
              × SameMaps M w.kernel (main B v4 v6 fuel args w).1.kernel)
            ⊎ ((fd_v4 : ℕ) × (fd_v6 : Option ℕ) × (v : Shell B.State) × IsOpen B args.map_path_v4
                  fd_v4
                × IsOpenIf B args.map_path_v6 fd_v6
                × SameMaps M w.kernel v.kernel
                × (main B v4 v6 fuel args w
                    ≡ dispatch B v4 v6 fuel args.action args.ip fd_v4 fd_v6 v))
      first (failed e) h = inl (ground (arith, h), λ g j. ground (arith, h, same1 g j))
      first (reply fd) h =
          let (fd_v6, v, o, same, e) = second fd (B.obj_get args.map_path_v6 s1).0 h refl in
          inr (fd, fd_v6, v, (w.kernel, h), o, same, e)

  Outcome-after :
      (c : Codec) (path ip : Text) (o : Option ℕ) (s s1 s' : B.State) (r : Result ℕ)
      → SameMaps M s s1
      → Outcome M c path ip o s1 r s'
      → Outcome M c path ip o s r s'
  Outcome-after c path ip o s s1 s' r same h = elim h [
    | inl (e, kept) ↦ inl (e, λ g j. kept g j ∙ same g j)
    | inr (fd, k, e, opened, p, written) ↦
        inr (fd, k, e, opened, p, λ g j. ground (arith, written g j, same g j))
  ]

  -- A command that has the outcome, whatever is open, has it from `main` on.
  main-Outcome :
      (args : Args) (ip : Text) (o : Option ℕ) (w : Shell B.State)
      → ((fd_v4 : ℕ) (fd_v6 : Option ℕ) (v : Shell B.State)
          → IsOpen B args.map_path_v4 fd_v4
          → IsOpenIf B args.map_path_v6 fd_v6
          → ChangeOutcome args ip o v (dispatch B v4 v6 fuel args.action args.ip fd_v4 fd_v6))
      → ChangeOutcome args ip o w (main B v4 v6 fuel args)
  main-Outcome args ip o w h = elim (main_steps args w) [
    | inl given_up ↦ inl given_up
    | inr (fd_v4, fd_v6, v, o4, o6, same, e) ↦
        let c = codec_of v4 v6 ip in
        let path = path_of v6 args ip in
        subst (λ (r : Result ℕ × Shell B.State). Outcome M c path ip o w.kernel r.0 r.1.kernel)
          (sym e) (Outcome-after c path ip o w.kernel v.kernel _ _ same (h fd_v4 fd_v6 v o4 o6))
  ]

  main-add :
      (args : Args) (ch : ℕ) (ip : Text) (w : Shell B.State)
      → args.action ≡ add
      → args.ip ≡ some (ch ∷ ip)
      → Outcome M
          (codec_of v4 v6 (ch ∷ ip))
          (path_of v6 args (ch ∷ ip))
          (ch ∷ ip)
          (some 1)
          w.kernel
          (main B v4 v6 fuel args w).0
          (main B v4 v6 fuel args w).1.kernel
  unfolding dispatch change_given
  main-add args ch ip w a i =
      main-Outcome args (ch ∷ ip) (some 1) w
        λ fd_v4 fd_v6 v o4 o6. rw (a, i) (add-Outcome args fd_v4 fd_v6 (ch ∷ ip) v o4 o6)

  main-del :
      (args : Args) (ch : ℕ) (ip : Text) (w : Shell B.State)
      → args.action ≡ del
      → args.ip ≡ some (ch ∷ ip)
      → Outcome M
          (codec_of v4 v6 (ch ∷ ip))
          (path_of v6 args (ch ∷ ip))
          (ch ∷ ip)
          none
          w.kernel
          (main B v4 v6 fuel args w).0
          (main B v4 v6 fuel args w).1.kernel
  unfolding dispatch change_given
  main-del args ch ip w a i =
      main-Outcome args (ch ∷ ip) none w
        λ fd_v4 fd_v6 v o4 o6. rw (a, i) (del-Outcome args fd_v4 fd_v6 (ch ∷ ip) v o4 o6)

  -- For hash maps as documented, `add` or `del` with an address ends in one of two ways, and never
  -- by an exception: with status 1, and no map differs; or with status 0, the address is valid in
  -- its family, and its key has got the value 1 in the map that was opened for the family, or has
  -- gone from it, while nothing else differs.
  pub main-change :
      (args : Args) (ch : ℕ) (ip : Text) (w : Shell B.State)
      → args.action ≢ list
      → args.ip ≡ some (ch ∷ ip)
      → Outcome M
          (codec_of v4 v6 (ch ∷ ip))
          (path_of v6 args (ch ∷ ip))
          (ch ∷ ip)
          (left_by args.action)
          w.kernel
          (main B v4 v6 fuel args w).0
          (main B v4 v6 fuel args w).1.kernel
  main-change args ch ip w changes i = by_action args.action refl
    where
      left :
          {action : Action}
          → args.action ≡ action
          → ChangeOutcome args (ch ∷ ip) (left_by action) w (main B v4 v6 fuel args)
          → ChangeOutcome args (ch ∷ ip) (left_by args.action) w (main B v4 v6 fuel args)
      left a =
          subst
            (λ (x : Action). ChangeOutcome args (ch ∷ ip) (left_by x) w (main B v4 v6 fuel args))
            (sym a)

      by_action :
          (action : Action)
          → args.action ≡ action
          → ChangeOutcome args (ch ∷ ip) (left_by args.action) w (main B v4 v6 fuel args)
      by_action add a = left a (main-add args ch ip w a i)
      by_action del a = left a (main-del args ch ip w a i)
      by_action list a = absurd (changes a)
