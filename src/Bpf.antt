-- ===== src/Bpf.antt =====
-- fluxguard_bpf.py: the map operations over the bpf(2) system call. The call itself belongs to the
-- operating system and is a parameter. Pointers and the `bpf_attr` union appear as the values that
-- they point to; map descriptors are the non-negative numbers that the kernel hands out.
pub mod Laws
pub mod Dump
pub mod Writes
pub mod Keys
use flux_guard.Base.{
  ℕ, zero, suc, ◌+◌, ◌%◌, ◌^◌, Option, none, some, List, [], ◌∷◌, ◌==◌, if◌then◌else◌, Text,
}
use flux_guard.Base.Dict.{Dict, insert}
use flux_guard.Base.Int.{ℤ, pos}
use flux_guard.Base.Exec.{
  Result, ok, err, os_error, value_error, unfinished, Exec, ◌>>=◌, except_os_error, pure,
}
use flux_guard.Address.{Codec}

-- What `libc.syscall` hands back: a negative result with `errno`, or what the kernel wrote.
pub data Reply {ℓ} (A : Type ℓ) : Type ℓ where
  failed : ℕ → Reply A
  reply : A → Reply A

-- `struct token_bucket` as read by `get_global_tokens`.
pub record TokenBucket : Type 0 where
  pub last_time : ℕ
  pub tokens : ℤ

-- The commands of bpf(2) that the program issues, over an unknown kernel state. Any of them may
-- change the state, since the packet filter runs in between. Values are read as a u32, as the
-- per-CPU counters, or as a token bucket; writes are all made with the flags 0.
pub record Bpf : Type 1 where
  pub State : Type 0
  pub obj_get : Text → State → Reply ℕ × State
  pub lookup_elem : ℕ → Text → State → Reply ℕ × State
  pub lookup_percpu : ℕ → ℕ → State → Reply (List ℕ) × State
  pub lookup_bucket : ℕ → ℕ → State → Reply TokenBucket × State
  pub update_elem : ℕ → Text → ℕ → State → Reply (Unit {0}) × State
  pub delete_elem : ℕ → Text → State → Reply (Unit {0}) × State
  pub get_next_key : ℕ → Option Text → State → Reply Text × State

-- A negative result is raised as an `OSError`.
unfoldable pub bpf_syscall : {S A : Type 0} → (S → Reply A × S) → Exec S A
bpf_syscall call s =
    let (r, s') = call s in
    elim r [ failed errno ↦ (err (os_error errno), s') | reply a ↦ (ok a, s') ]

abbrev pub enoent : ℕ
enoent = 2

unfoldable pub key_to_ip : Codec → Text → Text
key_to_ip c k = c.format k

unfoldable pub ip_to_key : {S : Type 0} → Codec → Text → Exec S Text
ip_to_key c ip s = elim (c.parse ip) [ none ↦ (err value_error, s) | some k ↦ (ok k, s) ]

-- `res[key_to_ip(current_key)] = value.val`, passed over where the look-up failed.
unfoldable pub store_entry : Codec → Text → Result ℕ → Dict ℕ → Dict ℕ
unfolding key_to_ip
store_entry c k (ok v) res = insert (key_to_ip c k) v res
store_entry c k (err e) res = res

unfoldable pub sum : List ℕ → ℕ
sum [] = 0
sum (v ∷ vals) = v + sum vals

module _ (B : Bpf) where
  unfoldable pub bpf_obj_get : Text → Exec B.State ℕ
  unfolding bpf_syscall
  bpf_obj_get path = bpf_syscall (B.obj_get path)

  -- The `while True` loop, from `current_key`.
  unfoldable pub dump_loop : Codec → ℕ → ℕ → Text → Dict ℕ → Exec B.State (Dict ℕ)
  unfolding bpf_syscall store_entry
  dump_loop c zero fd current res s = (err unfinished, s)
  dump_loop c (suc fuel) fd current res s =
      let (found, s1) = bpf_syscall (B.lookup_elem fd current) s in
      let res' = store_entry c current found res in
      let (next, s2) = bpf_syscall (B.get_next_key fd (some current)) s1 in
      elim next [ ok k ↦ dump_loop c fuel fd k res' s2 | err e ↦ (ok res', s2) ]

  unfoldable pub dump_map_u32 : Codec → ℕ → ℕ → Exec B.State (Dict ℕ)
  unfolding dump_loop
  dump_map_u32 c fuel fd s =
      let (first, s1) = bpf_syscall (B.get_next_key fd none) s in
      elim first [
        | ok k ↦ dump_loop c fuel fd k [] s1
        | err e ↦ elim e [
          | os_error errno ↦ (if errno == enoent then ok [] else err (os_error errno), s1)
          | other ↦ (err other, s1)
        ]
      ]

  -- The value is cut to a `c_uint32`.
  unfoldable pub set_map_u32 : Codec → ℕ → Text → ℕ → Exec B.State (Unit {0})
  unfolding bpf_syscall ip_to_key
  set_map_u32 c fd ip val = do k ← ip_to_key c ip; bpf_syscall (B.update_elem fd k (val % 2 ^ 32))

  unfoldable pub del_map_u32 : Codec → ℕ → Text → Exec B.State (Unit {0})
  unfolding bpf_syscall ip_to_key
  del_map_u32 c fd ip = do k ← ip_to_key c ip; bpf_syscall (B.delete_elem fd k)

  -- The functions for IPv6 are the same code over keys of 16 bytes; the codec is the one of IPv6.
  abbrev pub dump_map_u32_v6 : Codec → ℕ → ℕ → Exec B.State (Dict ℕ)
  dump_map_u32_v6 = dump_map_u32

  abbrev pub set_map_u32_v6 : Codec → ℕ → Text → ℕ → Exec B.State (Unit {0})
  set_map_u32_v6 = set_map_u32

  abbrev pub del_map_u32_v6 : Codec → ℕ → Text → Exec B.State (Unit {0})
  del_map_u32_v6 = del_map_u32

  -- The protocol is cut to a `c_uint8`, the action to a `c_uint32`.
  unfoldable pub set_proto_filter : ℕ → ℕ → ℕ → Exec B.State (Unit {0})
  unfolding bpf_syscall
  set_proto_filter fd proto action =
      bpf_syscall (B.update_elem fd ((proto % 2 ^ 8) ∷ []) (action % 2 ^ 32))

  unfoldable pub get_global_counter : ℕ → Exec B.State ℕ
  unfolding bpf_syscall sum
  get_global_counter fd =
      except_os_error (do vals ← bpf_syscall (B.lookup_percpu fd 0); pure (sum vals)) (pure 0)

  unfoldable pub get_global_tokens : ℕ → Exec B.State ℤ
  unfolding bpf_syscall
  get_global_tokens fd =
      except_os_error (do v ← bpf_syscall (B.lookup_bucket fd 0); pure v.tokens) (pure (pos 0))
