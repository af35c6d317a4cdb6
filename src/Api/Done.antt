-- ===== src/Api/Done.antt =====
-- The requests to the allowlist that are done.
use flux_guard.Base.{ℕ, ◌≡◌, ◌≢◌, refl, Bool, true, false, some, arith, if◌then◌else◌, Text}
use flux_guard.Base.Int.{pos, negsuc}
use flux_guard.Base.Exec.{ok}
use flux_guard.Address.{Codec}
use flux_guard.Bpf.{Bpf, set_map_u32, del_map_u32, bpf_syscall, ip_to_key}
use flux_guard.Bpf.Laws.{succeeded}
use flux_guard.Config.{Value, null, flag, int, float, str, array, object}
use flux_guard.Config.Python.{Python, is_falsy}
use flux_guard.Api.{
  Method, get, post, delete, head, Request, MapFds, check_auth, given_ip, require, answer,
  change_v4, change_by, change, change_number_v4, change_number, change_value, change_given,
  allowlist, handle,
}
use flux_guard.Api.Laws.{key_of, told_by}

-- The kernel takes the write that a method makes.
abbrev pub is_taken : (B : Bpf) → Method → ℕ → Text → B.State → Bool
is_taken B post fd k s = succeeded (B.update_elem fd k 1 s).0
is_taken B other fd k s = succeeded (B.delete_elem fd k s).0

module _ (B : Bpf) (Y : Python) (v4 v6 : Codec) (fuel : ℕ) (fds : MapFds) (fd : ℕ) (k : Text)
    (opened : fds.allowlist ≡ some fd) where
  change_v4_done :
      (method : Method) (ip : Text) (s : B.State)
      → v4.parse ip ≡ some k
      → is_taken B method fd k s ≡ true
      → (change_v4 B Y v4 v6 fuel fds method ip fd s).0 ≡ ok (told_by method (str ip))
  unfolding change_v4 set_map_u32 del_map_u32 bpf_syscall ip_to_key answer
  change_v4_done get ip s p t = ground (arith, p, t)
  change_v4_done post ip s p t = ground (arith, p, t)
  change_v4_done delete ip s p t = ground (arith, p, t)
  change_v4_done head ip s p t = ground (arith, p, t)

  change_number_done :
      (method : Method) (ip : Value) (n : ℕ) (s : B.State)
      → key_of v4 (int (pos n)) ≡ some k
      → is_taken B method fd k s ≡ true
      → (change_number B Y v4 v6 fuel fds method ip n s).0 ≡ ok (told_by method ip)
  unfolding change_number change_number_v4 require key_of bpf_syscall answer
  change_number_done get ip n s p t = ground (arith, p, t, opened)
  change_number_done post ip n s p t = ground (arith, p, t, opened)
  change_number_done delete ip n s p t = ground (arith, p, t, opened)
  change_number_done head ip n s p t = ground (arith, p, t, opened)

  change_value_done :
      (method : Method) (ip : Value) (s : B.State)
      → key_of v4 ip ≡ some k
      → is_taken B method fd k s ≡ true
      → (change_value B Y v4 v6 fuel fds method ip s).0 ≡ ok (told_by method ip)
  unfolding change_value change change_by require key_of
  change_value_done method (str ip) s p t =
      ground (arith, p, opened, change_v4_done method ip s p t)
  change_value_done method (int (pos n)) s p t = change_number_done method (int (pos n)) n s p t
  change_value_done method (int (negsuc n)) s p t = cc
  change_value_done method (flag b) s p t =
      change_number_done method (flag b) (if b then 1 else 0) s p t
  change_value_done method null s p t = cc
  change_value_done method (float x) s p t = cc
  change_value_done method (array vs) s p t = cc
  change_value_done method (object ms) s p t = cc

  -- An authorized POST, DELETE or HEAD whose body has under "ip" a value that is not falsy and names an
  -- IPv4 address, by its text or its number, with the allowlist of IPv4 open: where the kernel takes
  -- the write, the request is answered as done, with that value.
  pub handle-done :
      (token : Text) (req : Request) (ip : Value) (s : B.State)
      → req.method ≢ get
      → check_auth token req.authorization ≡ true
      → given_ip Y req.body ≡ ok (some ip)
      → is_falsy Y ip ≡ false
      → key_of v4 ip ≡ some k
      → is_taken B req.method fd k s ≡ true
      → (handle B Y v4 v6 fuel fds token req s).0 ≡ ok (told_by req.method ip)
  unfolding handle allowlist change_given
  handle-done token req ip s m authorized given truthy p t =
      rw (authorized, if◌then◌else◌) (by_method req.method m t)
    where
      by_method :
          (method : Method)
          → method ≢ get
          → is_taken B method fd k s ≡ true
          → (allowlist B Y v4 v6 fuel fds method req.body s).0 ≡ ok (told_by method ip)
      by_method get m t = absurd (m refl)
      by_method post m t = rw (given, truthy, if◌then◌else◌) (change_value_done post ip s p t)
      by_method delete m t = rw (given, truthy, if◌then◌else◌) (change_value_done delete ip s p t)
      by_method head m t = rw (given, truthy, if◌then◌else◌) (change_value_done head ip s p t)
