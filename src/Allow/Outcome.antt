-- ===== src/Allow/Outcome.antt =====
-- How a command that writes to a map can end.
use flux_guard.Base.{
  ℕ, ◌≡◌, refl, true, Option, none, some, arith, if◌then◌else◌, Text, inl, inr, ◌⊎◌,
}
use flux_guard.Base.Exec.{Result, ok, err, Error, Exec, pure, ◌>>◌}
use flux_guard.Address.{Codec}
use flux_guard.Bpf.{Bpf, set_map_u32, del_map_u32, reply}
use flux_guard.Bpf.Laws.{HashMaps, IsHashMaps, IsWritten, SameMaps}
use flux_guard.Bpf.Writes.{
  set_map_u32-IsWritten, del_map_u32-IsWritten, set_map_u32_raises, del_map_u32_raises,
}
use flux_guard.Allow.{
  Args, Line, Shell, is_os_or_value_error, on_kernel, print, fail, guarded, is_ipv6,
}

-- The codec of an address by its family.
abbrev pub codec_of : Codec → Codec → Text → Codec
codec_of v4 v6 ip = if is_ipv6 v6 ip then v6 else v4

abbrev pub path_of : Codec → Args → Text → Text
path_of v6 args ip = if is_ipv6 v6 ip then args.map_path_v6 else args.map_path_v4

-- The kernel handed out the descriptor for the path.
abbrev pub IsOpen : Bpf → Text → ℕ → Type 0
IsOpen B path fd = (s : B.State) × ((B.obj_get path s).0 ≡ reply fd)

abbrev pub IsOpenIf : Bpf → Text → Option ℕ → Type 0
IsOpenIf B path none = Unit
IsOpenIf B path (some fd) = IsOpen B path fd

-- Either status 1 and no map differs, or status 0 and the key of the address, in the map opened at
-- the path, has got the value or has gone.
abbrev pub Outcome :
    {B : Bpf} → HashMaps B → Codec → Text → Text → Option ℕ → B.State → Result ℕ → B.State → Type 0
Outcome {B} M c path ip o s r s' =
    ((r ≡ ok 1) × SameMaps M s s')
    ⊎ ((fd : ℕ) × (k : Text) × (r ≡ ok 0)
        × IsOpen B path fd
        × (c.parse ip ≡ some k)
        × IsWritten M fd k o s s')

-- What a call that writes does: it returns, or raises what the handler catches.
abbrev pub WriteOutcome :
    {B : Bpf}
    → HashMaps B
    → Codec
    → ℕ
    → Text
    → Option ℕ
    → B.State
    → Result (Unit {0})
    → B.State
    → Type 0
WriteOutcome M c fd ip o s r s' =
    ((k : Text) × (r ≡ ok tt) × (c.parse ip ≡ some k) × IsWritten M fd k o s s')
    ⊎ ((e : Error) × (r ≡ err e) × (is_os_or_value_error e ≡ true) × SameMaps M s s')

module _ (B : Bpf) (M : HashMaps B) (H : IsHashMaps B M) (c : Codec) where
  pub set_map_u32-Outcome :
      (fd : ℕ) (ip : Text) (s : B.State)
      → WriteOutcome M c fd ip
          (some 1)
          s
          (set_map_u32 B c fd ip 1 s).0
          (set_map_u32 B c fd ip 1 s).1
  set_map_u32-Outcome fd ip s = go (set_map_u32 B c fd ip 1 s).0 refl
    where
      caught : (e : Error) → (set_map_u32 B c fd ip 1 s).0 ≡ err e → is_os_or_value_error e ≡ true
      caught e h = unfold set_map_u32 is_os_or_value_error in ground (arith, h)

      go :
          (r : Result (Unit {0}))
          → (set_map_u32 B c fd ip 1 s).0 ≡ r
          → WriteOutcome M c fd ip (some 1) s r (set_map_u32 B c fd ip 1 s).1
      go (ok _) h =
          let (k, p, written) = set_map_u32-IsWritten B M H c fd ip 1 s _ (ground (arith, h)) in
          inl (k, refl, p, written)
      go (err e) h = inr (
        e,
        refl,
        caught e h,
        λ g j. set_map_u32_raises B M H c fd ip 1 s _ e g j (ground (arith, h)),
      )

  pub del_map_u32-Outcome :
      (fd : ℕ) (ip : Text) (s : B.State)
      → WriteOutcome M c fd ip none s (del_map_u32 B c fd ip s).0 (del_map_u32 B c fd ip s).1
  del_map_u32-Outcome fd ip s = go (del_map_u32 B c fd ip s).0 refl
    where
      caught : (e : Error) → (del_map_u32 B c fd ip s).0 ≡ err e → is_os_or_value_error e ≡ true
      caught e h = unfold del_map_u32 is_os_or_value_error in ground (arith, h)

      go :
          (r : Result (Unit {0}))
          → (del_map_u32 B c fd ip s).0 ≡ r
          → WriteOutcome M c fd ip none s r (del_map_u32 B c fd ip s).1
      go (ok _) h =
          let (k, p, written) = del_map_u32-IsWritten B M H c fd ip s _ (ground (arith, h)) in
          inl (k, refl, p, written)
      go (err e) h = inr (
        e,
        refl,
        caught e h,
        λ g j. del_map_u32_raises B M H c fd ip s _ e g j (ground (arith, h)),
      )

module _ (B : Bpf) (M : HashMaps B) where
  -- The command around the call.
  pub guarded-Outcome :
      (c : Codec) (path : Text) (fd : ℕ) (ip : Text) (o : Option ℕ) (m : Exec B.State (Unit {0}))
      (l l' : Line) (w : Shell B.State)
      → IsOpen B path fd
      → WriteOutcome M c fd ip o w.kernel (m w.kernel).0 (m w.kernel).1
      → (let run =
            guarded B is_os_or_value_error
              (on_kernel B m)
              (fail B l)
              (λ _. do print B l'; pure 0)
              w in
          Outcome M c path ip o w.kernel run.0 run.1.kernel)
  unfolding guarded on_kernel fail print
  guarded-Outcome c path fd ip o m l l' w opened h = elim h [
    | inl (k, r, p, written) ↦ inr (fd, k, ground (arith, r), opened, p, ground (arith, r, written))
    | inr (e, r, caught, kept) ↦ inl (ground (arith, r, caught), ground (arith, r, caught, kept))
  ]
