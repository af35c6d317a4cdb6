-- ===== src/Tests/Api.antt =====
-- Requests to the allowlist of a small kernel.
use flux_guard.Base.{◌≡◌, refl, true, false, some, none, [], ◌∷◌, arith, codes, text_dec}
use flux_guard.Base.Dict.{lookup}
use flux_guard.Base.Int.{pos}
use flux_guard.Base.Exec.{ok}
use flux_guard.Bpf.Keys.{ipv4, ipv4-IsCodec}
use flux_guard.Config.{Value, int, str, object, member, no_members, items}
use flux_guard.Config.Python.{is_falsy}
use flux_guard.Api
use flux_guard.Api.{Method, Request, MapFds, handle, given_ip, get_ip, check_auth}
use flux_guard.Api.Laws.{Handled, key_of, handle-change}
use flux_guard.Api.Done.{handle-done}
use flux_guard.Tests.Config.{python}
use flux_guard.Tests.Sim.{Maps, sim, sim_maps, sim-IsHashMaps}

-- Both families are written in dotted decimal here.
abbrev nothing : Maps
nothing fd = ([], tt)

abbrev fds : MapFds
fds = record { allowlist = some 5; allowlist_v6 = none; blacklist = some 4; blacklist_v6 = none }

abbrev request : Method → Value → Request
request method ip = record {
  method = method;
  authorization = codes "Bearer secret";
  body = some (object (member (codes "ip") ip no_members));
}

abbrev host : Value
host = str (codes "10.0.1.5")

-- The same address.
abbrev host_number : Value
host_number = int (pos 167772421)

handle-change_example :
    Handled sim_maps python ipv4 ipv4 fds Api.post
      (given_ip python (request Api.post host).body)
      nothing
      (handle sim python ipv4 ipv4 4 fds (codes "secret") (request Api.post host) nothing).0
      (handle sim python ipv4 ipv4 4 fds (codes "secret") (request Api.post host) nothing).1
handle-change_example =
    handle-change sim python sim_maps sim-IsHashMaps ipv4 ipv4 ipv4-IsCodec (λ ip k e. e) 4 fds
      (codes "secret") (request Api.post host) nothing (ground arith)

authorized : check_auth (codes "secret") (codes "Bearer secret") ≡ true
unfolding check_auth text_dec
authorized = refl

given : given_ip python (request Api.post host_number).body ≡ ok (some host_number)
unfolding given_ip get_ip is_falsy lookup items text_dec
given = refl

truthy : is_falsy python host_number ≡ false
unfolding is_falsy
truthy = refl

named : key_of ipv4 host_number ≡ some (10 ∷ 0 ∷ 1 ∷ 5 ∷ [])
unfolding key_of Api.number_key
named = refl

handle-done_example :
    (handle sim python ipv4 ipv4 4 fds (codes "secret") (request Api.post host_number) nothing).0
    ≡ ok (Api.added host_number)
handle-done_example =
    handle-done sim python ipv4 ipv4 4 fds 5 (10 ∷ 0 ∷ 1 ∷ 5 ∷ []) refl (codes "secret")
      (request Api.post host_number) host_number nothing (ground arith) authorized given truthy
      named refl
