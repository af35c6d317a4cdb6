-- ===== src/Tests/Server.antt =====
-- The server of the REST API, with a settings file and with none.
use flux_guard.Base.{
  ◌≡◌, refl, true, Option, some, none, [], arith, if◌then◌else◌, Text, codes, same, text_dec,
}
use flux_guard.Base.Dict.{contains_key, lookup}
use flux_guard.Base.Exec.{ok}
use flux_guard.Bpf.Keys.{ipv4}
use flux_guard.Config.{str, defaults, items, load_config}
use flux_guard.Config.Laws.{in_file}
use flux_guard.Metrics.Server.{Response, do_get}
use flux_guard.Api.{Request, get, aborted, check_auth}
use flux_guard.Api.Startup.{App, from_maps, health_view, api_token, dispatch, run_view, field}
use flux_guard.Api.Startup.Laws.{dispatch-unauthorized, dispatch-unguarded}
use flux_guard.Config.Python.{is_falsy}
use flux_guard.Tests.Config.{python, disk, json, path, files, settings-NodupKeys}
use flux_guard.Tests.Live.{ascii}
use flux_guard.Tests.Scrape.{state}
use flux_guard.Tests.Sim.{Maps, sim}

abbrev empty : Maps
empty fd = ([], tt)

abbrev app : App
app = record {
  pin = codes "/sys/fs/bpf/fluxguard";
  fds = record { allowlist = none; allowlist_v6 = none; blacklist = some 4; blacklist_v6 = none };
}

abbrev request : Request
request = record { method = get; authorization = codes "Bearer guess"; body = none }

abbrev urlopen : Text → Option Response
urlopen url =
    if same url (codes "http://127.0.0.1:9090/metrics")
    then some (do_get ascii state (codes "/metrics"))
    else none

token_in_file :
    lookup (codes "api_token") (in_file disk json path files) ≡ some (str (codes "secret"))
unfolding lookup text_dec items contains_key
token_in_file = refl

dispatch-unauthorized_example :
    dispatch sim python urlopen ipv4 ipv4 4
      (load_config disk json path files)
      app
      health_view
      request
      empty
    ≡ (ok (from_maps (aborted 401)), empty)
dispatch-unauthorized_example =
    dispatch-unauthorized disk json sim python urlopen ipv4 ipv4 4 app path files b's'
      (codes "ecret") health_view request empty settings-NodupKeys token_in_file (ground arith)

dispatch-unguarded_example :
    dispatch sim python urlopen ipv4 ipv4 4
      (load_config disk json path [])
      app
      health_view
      request
      empty
    ≡ run_view sim python urlopen ipv4 ipv4 4
        (load_config disk json path [])
        app
        health_view
        request
        empty
unfolding lookup contains_key
dispatch-unguarded_example =
    dispatch-unguarded disk json sim python urlopen ipv4 ipv4 4 app path [] health_view request
      empty tt refl

authorized : check_auth (api_token python defaults) (codes "Bearer guess") ≡ true
unfolding check_auth api_token field lookup text_dec is_falsy
authorized = refl
