-- ===== src/Api/Startup.antt =====
-- What the API server does when it is imported, the views that read no map, and the dispatch of a
-- request to its view. Flask runs `before` first, and answers a method that a view has not by 405.
pub mod Laws
use flux_guard.Base.{
  ℕ, Bool, true, false, Option, none, some, List, [], ◌++◌, if◌then◌else◌, Text, codes, rstrip,
}
use flux_guard.Base.Dict.{Dict, lookup}
use flux_guard.Base.Exec.{other_error, Exec, pure, raise, except_os_error, ◌>>=◌}
use flux_guard.Address.{Codec}
use flux_guard.Bpf.{Bpf, bpf_obj_get}
use flux_guard.Config.{Value, null, str}
use flux_guard.Config.Python.{Python, is_falsy, show_value}
use flux_guard.Metrics.Server
use flux_guard.Api.{
  Method, get, head, Request, Response, aborted, MapFds, check_auth, allowlist, blocked,
}

-- `cfg.name`
unfoldable pub field : Text → Dict Value → Value
field name cfg = elim (lookup name cfg) [ none ↦ null | some v ↦ v ]

-- The token that requests need, empty where they need none.
unfoldable pub api_token : Python → Dict Value → Text
api_token Y cfg =
    let token = field (codes "api_token") cfg in if is_falsy Y token then [] else show_value Y token

-- `cfg.bpf_pin_dir.rstrip("/")`, which raises for what is no text.
unfoldable pub pin_dir : {S : Type 0} → Dict Value → Exec S Text
pin_dir cfg = elim (field (codes "bpf_pin_dir") cfg) [
  | str t ↦ pure (rstrip b'/' t)
  | other ↦ raise other_error
]

-- The module's globals.
pub record App : Type 0 where
  pub pin : Text
  pub fds : MapFds

module _ (B : Bpf) where
  -- `_try_open`
  unfoldable pub try_open : Text → Exec B.State (Option ℕ)
  try_open path = except_os_error (do fd ← bpf_obj_get B path; pure (some fd)) (pure none)

  unfoldable pub open_maps : Text → Exec B.State MapFds
  open_maps pin = do
    allowlist ← try_open (pin ++ codes "/allowlist_map")
    allowlist_v6 ← try_open (pin ++ codes "/allowlist_map_v6")
    blacklist ← try_open (pin ++ codes "/blacklist_map")
    blacklist_v6 ← try_open (pin ++ codes "/blacklist_map_v6")
    pure (record {
      allowlist = allowlist;
      allowlist_v6 = allowlist_v6;
      blacklist = blacklist;
      blacklist_v6 = blacklist_v6;
    })

  unfoldable pub start : Dict Value → Exec B.State App
  start cfg = do pin ← pin_dir cfg; fds ← open_maps pin; pure (record { pin = pin; fds = fds })

-- The body of the health report.
pub record Health : Type 0 where
  pub pin_dir : Text
  pub allowlist_map : Bool
  pub allowlist_map_v6 : Bool
  pub blacklist_map : Bool
  pub blacklist_map_v6 : Bool

unfoldable pub is_open : Option ℕ → Bool
is_open none = false
is_open (some fd) = true

unfoldable pub health : App → Health
health app = record {
  pin_dir = app.pin;
  allowlist_map = is_open app.fds.allowlist;
  allowlist_map_v6 = is_open app.fds.allowlist_v6;
  blacklist_map = is_open app.fds.blacklist;
  blacklist_map_v6 = is_open app.fds.blacklist_v6;
}

pub data Answer : Type 0 where
  from_maps : Response → Answer
  proxied : List ℕ → ℕ → Text → Answer
  reported : Health → Answer

unfoldable pub metrics_url : Python → Dict Value → Text
metrics_url Y cfg =
    codes "http://"
    ++ (show_value Y (field (codes "metrics_host") cfg)
        ++ (codes ":" ++ (show_value Y (field (codes "metrics_port") cfg) ++ codes "/metrics")))

unfoldable pub content_type : Dict Text → Text
content_type headers = elim (lookup (codes "Content-Type") headers) [
  | none ↦ codes "text/plain"
  | some t ↦ t
]

-- `urlopen`, with `none` where it raises, is a parameter.
unfoldable pub metrics_proxy : Python → (Text → Option Server.Response) → Dict Value → Answer
metrics_proxy Y urlopen cfg = elim (urlopen (metrics_url Y cfg)) [
  | none ↦ from_maps (aborted 502)
  | some r ↦ proxied r.body r.status (content_type r.headers)
]

pub data View : Type 0 where
  allowlist_view blocked_view metrics_view health_view : View

-- Flask adds HEAD to GET; the server then leaves out the body.
unfoldable pub only_get : {S : Type 0} → Method → Exec S Answer → Exec S Answer
only_get get view = view
only_get head view = view
only_get other view = pure (from_maps (aborted 405))

module _ (B : Bpf) (Y : Python) (urlopen : Text → Option Server.Response) (v4 v6 : Codec) (fuel : ℕ)
    (cfg : Dict Value) (app : App) where
  unfoldable pub run_view : View → Request → Exec B.State Answer
  run_view allowlist_view req = do
    r ← allowlist B Y v4 v6 fuel app.fds req.method req.body
    pure (from_maps r)
  run_view blocked_view req =
      only_get req.method (do r ← blocked B Y v4 v6 fuel app.fds; pure (from_maps r))
  run_view metrics_view req = only_get req.method (pure (metrics_proxy Y urlopen cfg))
  run_view health_view req = only_get req.method (pure (reported (health app)))

  unfoldable pub dispatch : View → Request → Exec B.State Answer
  dispatch view req =
      if check_auth (api_token Y cfg) req.authorization
      then run_view view req
      else pure (from_maps (aborted 401))
