-- ===== src/Api/Answers.antt =====
-- How a write that is answered can end.
use flux_guard.Base.{ℕ, ◌≡◌, refl, sym, subst, Option, none, some, arith, Text, inl, inr, ◌⊎◌}
use flux_guard.Base.Exec.{Result, ok}
use flux_guard.Address.{Codec}
use flux_guard.Bpf.{Bpf, Reply, failed, reply, bpf_syscall, set_map_u32, del_map_u32}
use flux_guard.Bpf.Laws.{HashMaps, IsHashMaps, IsWritten, SameMaps}
use flux_guard.Api.{Response, aborted, answer}

-- The answer of the right kind, after its write, or an abort that has changed no map.
abbrev pub Answered :
    {B : Bpf}
    → HashMaps B
    → ℕ
    → Text
    → Option ℕ
    → Response
    → B.State
    → Result Response
    → B.State
    → Type 0
Answered M fd k o done s r s' =
    ((r ≡ ok done) × IsWritten M fd k o s s')
    ⊎ ((status : ℕ) × (r ≡ ok (aborted status)) × SameMaps M s s')

module _ (B : Bpf) (M : HashMaps B) (H : IsHashMaps B M) where
  pub update-Answered :
      (fd : ℕ) (k : Text) (v : ℕ) (done : Response) (s : B.State)
      → (let run = answer B (bpf_syscall (B.update_elem fd k v)) done s in
          Answered M fd k (some v) done s run.0 run.1)
  unfolding answer bpf_syscall
  update-Answered fd k v done s = go (B.update_elem fd k v s).0 refl
    where
      go :
          (r : Reply (Unit {0}))
          → (B.update_elem fd k v s).0 ≡ r
          → (let run = answer B (bpf_syscall (B.update_elem fd k v)) done s in
              Answered M fd k (some v) done s run.0 run.1)
      go (failed e) h =
          inr (500, ground (arith, h), λ g j. ground (arith, h, H.update_lem fd k v s g j))
      go (reply u) h = inl (ground (arith, h), λ g j. ground (arith, h, H.update_lem fd k v s g j))

  pub delete-Answered :
      (fd : ℕ) (k : Text) (done : Response) (s : B.State)
      → (let run = answer B (bpf_syscall (B.delete_elem fd k)) done s in
          Answered M fd k none done s run.0 run.1)
  unfolding answer bpf_syscall
  delete-Answered fd k done s = go (B.delete_elem fd k s).0 refl
    where
      go :
          (r : Reply (Unit {0}))
          → (B.delete_elem fd k s).0 ≡ r
          → (let run = answer B (bpf_syscall (B.delete_elem fd k)) done s in
              Answered M fd k none done s run.0 run.1)
      go (failed e) h =
          inr (500, ground (arith, h), λ g j. ground (arith, h, H.delete_lem fd k s g j))
      go (reply u) h = inl (ground (arith, h), λ g j. ground (arith, h, H.delete_lem fd k s g j))

  -- The same for an address in its text form.
  pub set_map_u32-Answered :
      (c : Codec) (fd : ℕ) (ip k : Text) (done : Response) (s : B.State)
      → c.parse ip ≡ some k
      → (let run = answer B (set_map_u32 B c fd ip 1) done s in
          Answered M fd k (some 1) done s run.0 run.1)
  unfolding set_map_u32 answer
  set_map_u32-Answered c fd ip k done s p =
      let same_run : answer B (set_map_u32 B c fd ip 1) done s
          ≡ answer B (bpf_syscall (B.update_elem fd k 1)) done s =
        ground (arith, p) in
      subst (λ (x : Result Response × B.State). Answered M fd k (some 1) done s x.0 x.1)
        (sym same_run) (update-Answered fd k 1 done s)

  pub del_map_u32-Answered :
      (c : Codec) (fd : ℕ) (ip k : Text) (done : Response) (s : B.State)
      → c.parse ip ≡ some k
      → (let run = answer B (del_map_u32 B c fd ip) done s in
          Answered M fd k none done s run.0 run.1)
  unfolding del_map_u32 answer
  del_map_u32-Answered c fd ip k done s p =
      let same_run : answer B (del_map_u32 B c fd ip) done s
          ≡ answer B (bpf_syscall (B.delete_elem fd k)) done s =
        ground (arith, p) in
      subst (λ (x : Result Response × B.State). Answered M fd k none done s x.0 x.1) (sym same_run)
        (delete-Answered fd k done s)
