-- ===== src/Tests/Listing.antt =====
-- An address put on the allowlist of a small kernel and taken off, with a listing after each.
use flux_guard.Base.{
  ◌≡◌, refl, true, false, some, none, List, [], ◌∷◌, arith, if◌then◌else◌, Text, codes, same,
  text_dec,
}
use flux_guard.Base.Dict.{lookup, insert, erase, contains_key}
use flux_guard.Base.Exec.{ok}
use flux_guard.Address.{IsPacked}
use flux_guard.Address.Ipv4
use flux_guard.Bpf.{set_map_u32, del_map_u32, bpf_syscall, ip_to_key}
use flux_guard.Bpf.Keys.{ipv4, ipv4-IsCodec}
use flux_guard.Dashboard.Scrape.{contains}
use flux_guard.Config.{str, object, member, no_members, items}
use flux_guard.Config.Python.{is_falsy}
use flux_guard.Api
use flux_guard.Api.{
  Method, Request, MapFds, handle, answer, allowlist, given_ip, get_ip, change_value, change_given,
  change, change_by, require, change_v4, check_auth,
}
use flux_guard.Api.Listing.{post-listed, delete-listed}
use flux_guard.Tests.Config.{python}
use flux_guard.Tests.Sim.{Maps, sim, sim_maps, sim-IsHashMaps, put, cut, delete}

abbrev empty : Maps
empty fd = ([], tt)

abbrev fds : MapFds
fds = record { allowlist = some 5; allowlist_v6 = none; blacklist = some 4; blacklist_v6 = none }

abbrev request : Method → Request
request method = record {
  method = method;
  authorization = codes "Bearer secret";
  body = some (object (member (codes "ip") (str (codes "10.0.0.9")) no_members));
}

abbrev host : Text
host = 10 ∷ 0 ∷ 0 ∷ 9 ∷ []

host-IsPacked : IsPacked 4 host
host-IsPacked = ground arith

parse-host : Ipv4.parse (codes "10.0.0.9") ≡ some host
unfolding Ipv4.parse
parse-host = refl

authorized : check_auth (codes "secret") (codes "Bearer secret") ≡ true
unfolding check_auth text_dec
authorized = refl

abbrev listed_after : Maps
listed_after = put 5 host 1 empty

posted :
    handle sim python ipv4 ipv4 4 fds (codes "secret") (request Api.post) empty
    ≡ (ok (Api.added (str (codes "10.0.0.9"))), listed_after)
unfolding handle answer allowlist given_ip get_ip change_value is_falsy items lookup change_given
    change change_by require change_v4 check_auth set_map_u32 bpf_syscall ip_to_key Ipv4.parse
    text_dec
posted = refl

post-listed_example :
    (l4 : List Text) × (l6 : List Text) × (handle sim python ipv4 ipv4 4 fds
        (codes "secret")
        (request Api.get)
        listed_after
      ≡ (ok (Api.listed l4 l6), listed_after))
    × (contains (ipv4.format host) l4
        ≡ (if same host host then true else contains_key host (empty 5).0))
unfolding put insert given_ip is_falsy get_ip lookup items text_dec
post-listed_example =
    post-listed sim python sim_maps sim-IsHashMaps ipv4 ipv4 ipv4-IsCodec ipv4-IsCodec 4 fds
      (codes "secret") (request Api.post) (request Api.get) 5 b'1' (codes "0.0.0.9") host authorized
      authorized refl refl refl parse-host empty listed_after host refl posted host-IsPacked
      ((host-IsPacked, tt), omega arith) tt

abbrev off : Maps
off = cut 5 host listed_after

taken_off :
    handle sim python ipv4 ipv4 4 fds (codes "secret") (request Api.delete) listed_after
    ≡ (ok (Api.deleted (str (codes "10.0.0.9"))), off)
unfolding handle answer allowlist given_ip get_ip change_value is_falsy items lookup change_given
    change change_by require change_v4 check_auth del_map_u32 bpf_syscall ip_to_key Ipv4.parse
    text_dec put insert delete contains_key
taken_off = refl

delete-listed_example :
    (l4 : List Text) × (l6 : List Text) × (handle sim python ipv4 ipv4 4 fds
        (codes "secret")
        (request Api.get)
        off
      ≡ (ok (Api.listed l4 l6), off))
    × (contains (ipv4.format host) l4
        ≡ (if same host host then false else contains_key host (listed_after 5).0))
unfolding put insert cut erase given_ip is_falsy get_ip lookup items text_dec
delete-listed_example =
    delete-listed sim python sim_maps sim-IsHashMaps ipv4 ipv4 ipv4-IsCodec ipv4-IsCodec 4 fds
      (codes "secret") (request Api.delete) (request Api.get) 5 b'1' (codes "0.0.0.9") host
      authorized authorized refl refl refl parse-host listed_after off host refl taken_off
      host-IsPacked (tt, omega arith) tt
