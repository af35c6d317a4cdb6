-- ===== src/Api.antt =====
-- fluxguard_api.py: the endpoints of the REST API that read and write the maps. Flask hands over
-- the request and sends the response; `abort` is the response with its status, and an exception that
-- escapes is answered by Flask.
pub mod Answers
pub mod Laws
pub mod Done
pub mod Startup
pub mod Listing
use flux_guard.Base.{
  ℕ, zero, suc, ◌/◌, ◌%◌, ◌^◌, ltb, Bool, true, Option, none, some, List, [], ◌∷◌, ◌++◌,
  if◌then◌else◌, Text, codes, same,
}
use flux_guard.Base.Dict.{keys, lookup}
use flux_guard.Base.Int.{pos}
use flux_guard.Base.Exec.{Result, ok, err, os_error, other_error, Exec, pure, raise, ◌>>=◌}
use flux_guard.Address.{Codec}
use flux_guard.Bpf.{
  Bpf, bpf_syscall, dump_map_u32, dump_map_u32_v6, set_map_u32, set_map_u32_v6, del_map_u32,
  del_map_u32_v6,
}
use flux_guard.Config.{Value, int, flag, str, object, items}
use flux_guard.Config.Python.{Python, is_falsy}
use flux_guard.Brain.State.{if_open}
use flux_guard.Metrics.{sorted_texts}

pub data Method : Type 0 where
  get post delete head : Method

-- `authorization` is empty where the header is missing; `body` is what `get_json(silent=True)` gives,
-- `none` where that is `None`.
pub record Request : Type 0 where
  pub method : Method
  pub authorization : Text
  pub body : Option Value

pub data Response : Type 0 where
  listed : List Text → List Text → Response
  added deleted : Value → Response
  aborted : ℕ → Response

-- The descriptors opened at the start.
pub record MapFds : Type 0 where
  pub allowlist : Option ℕ
  pub allowlist_v6 : Option ℕ
  pub blacklist : Option ℕ
  pub blacklist_v6 : Option ℕ

-- `_check_auth`
unfoldable pub check_auth : Text → Text → Bool
check_auth [] authorization = true
check_auth (c ∷ token) authorization = same authorization (codes "Bearer " ++ c ∷ token)

-- `data.get("ip")` for the `data` that stands for the body; what is no dict has no `get`.
unfoldable pub get_ip : Value → Result (Option Value)
get_ip (object ms) = ok (lookup (codes "ip") (items ms))
get_ip other = err other_error

-- `request.get_json(silent=True) or {}`
unfoldable pub given_ip : Python → Option Value → Result (Option Value)
given_ip Y none = ok none
given_ip Y (some v) = if is_falsy Y v then ok none else get_ip v

-- The key of an address that is given as a number: its bytes, the highest first.
unfoldable pub number_key : ℕ → ℕ → Text
number_key zero n = []
number_key (suc width) n = (n / 256 ^ width % 256) ∷ number_key width n

module _ (B : Bpf) where
  -- `except OSError: abort(500)` around a write with its answer.
  unfoldable pub answer : Exec B.State (Unit {0}) → Response → Exec B.State Response
  answer m done s =
      let (r, s') = m s in
      elim r [
        | ok _ ↦ (ok done, s')
        | err e ↦ elim e [ os_error _ ↦ (ok (aborted 500), s') | other ↦ (err other, s') ]
      ]

module _ (B : Bpf) (Y : Python) (v4 v6 : Codec) (fuel : ℕ) (fds : MapFds) where
  -- `_require`
  unfoldable pub require : Option ℕ → (ℕ → Exec B.State Response) → Exec B.State Response
  require none k = pure (aborted 503)
  require (some fd) k = k fd

  -- The sorted addresses of a pair of maps.
  unfoldable pub list_maps : Option ℕ → Option ℕ → Exec B.State Response
  list_maps fd fd_v6 = require fd λ fd. do
    d ← dump_map_u32 B v4 fuel fd
    d6 ← if_open fd_v6 (dump_map_u32_v6 B v6 fuel) (pure [])
    pure (listed (sorted_texts (keys d)) (sorted_texts (keys d6)))

  -- Any method but POST deletes, HEAD too, which Flask adds to GET; GET does not come here.
  unfoldable pub change_v4 : Method → Text → ℕ → Exec B.State Response
  change_v4 post ip fd = answer B (set_map_u32 B v4 fd ip 1) (added (str ip))
  change_v4 method ip fd = answer B (del_map_u32 B v4 fd ip) (deleted (str ip))

  unfoldable pub change_v6 : Method → Text → ℕ → Exec B.State Response
  change_v6 post canon fd = answer B (set_map_u32_v6 B v6 fd canon 1) (added (str canon))
  change_v6 method canon fd = answer B (del_map_u32_v6 B v6 fd canon) (deleted (str canon))

  -- The text is an IPv6 address, or none at all. Its canonical form keeps a scope id.
  unfoldable pub change_other : Method → Text → Option Text → Exec B.State Response
  change_other method ip none = pure (aborted 400)
  change_other method ip (some k) = require fds.allowlist_v6 (change_v6 method (Y.canonical_v6 ip))

  -- By the key that the text has as an IPv4 address.
  unfoldable pub change_by : Method → Text → Option Text → Exec B.State Response
  change_by method ip (some k) = require fds.allowlist (change_v4 method ip)
  change_by method ip none = change_other method ip (v6.parse ip)

  -- `ipaddress.ip_address` tries IPv4 first.
  unfoldable pub change : Method → Text → Exec B.State Response
  change method ip = change_by method ip (v4.parse ip)

  -- `ipaddress` takes a number for the address of that value.
  unfoldable pub change_number_v4 : Method → Value → ℕ → ℕ → Exec B.State Response
  unfolding number_key bpf_syscall
  change_number_v4 post ip n fd =
      answer B (bpf_syscall (B.update_elem fd (number_key v4.width n) (1 % 2 ^ 32))) (added ip)
  change_number_v4 method ip n fd =
      answer B (bpf_syscall (B.delete_elem fd (number_key v4.width n))) (deleted ip)

  unfoldable pub change_number : Method → Value → ℕ → Exec B.State Response
  change_number method ip n =
      if ltb n (256 ^ v4.width)
      then require fds.allowlist (change_number_v4 method ip n)
      else if ltb n (256 ^ v6.width)
      then require fds.allowlist_v6 (change_v6 method (v6.format (number_key v6.width n)))
      else pure (aborted 400)

  -- `True` is the number 1; a number below 0 is no address. What is neither a number nor a text is taken by its `str`, which is no
  -- address for a number with a point, a list or a dict.
  unfoldable pub change_value : Method → Value → Exec B.State Response
  change_value method (str ip) = change method ip
  change_value method (int (pos n)) = change_number method (int (pos n)) n
  change_value method (flag b) = change_number method (flag b) (if b then 1 else 0)
  change_value method other = pure (aborted 400)

  unfoldable pub change_given : Method → Result (Option Value) → Exec B.State Response
  change_given method (err e) = raise e
  change_given method (ok none) = pure (aborted 400)
  change_given method (ok (some ip)) =
      if is_falsy Y ip then pure (aborted 400) else change_value method ip

  -- The view `allowlist`
  unfoldable pub allowlist : Method → Option Value → Exec B.State Response
  allowlist get body = list_maps fds.allowlist fds.allowlist_v6
  allowlist post body = change_given post (given_ip Y body)
  allowlist delete body = change_given delete (given_ip Y body)
  allowlist head body = change_given head (given_ip Y body)

  -- The view `blocked`
  unfoldable pub blocked : Exec B.State Response
  blocked = list_maps fds.blacklist fds.blacklist_v6

  -- A request to the allowlist, behind `before`.
  unfoldable pub handle : Text → Request → Exec B.State Response
  handle token req =
      if check_auth token req.authorization
      then allowlist req.method req.body
      else pure (aborted 401)
