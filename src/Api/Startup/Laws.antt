-- ===== src/Api/Startup/Laws.antt =====
-- How the server starts, and how it answers by its settings.
use flux_guard.Base.{
  ℕ, true, false, ◌≡◌, ◌≢◌, ◌↔◌, refl, Option, none, some, [], ◌∷◌, ◌++◌, arith, Text, codes,
  rstrip, text_dec, Option-cases, inl, inr,
}
use flux_guard.Base.Dict.{Dict, lookup, NodupKeys}
use flux_guard.Base.Exec.{ok, Exec, Result-cases}
use flux_guard.Address.{Codec}
use flux_guard.Bpf.{Bpf, bpf_obj_get}
use flux_guard.Bpf.Laws.{HashMaps, IsHashMaps, SameMaps}
use flux_guard.Config.{Value, str, defaults, Disk, Json, load_config}
use flux_guard.Config.Laws.{in_file, load_config_lem}
use flux_guard.Metrics.Server
use flux_guard.Config.{Value, str}
use flux_guard.Config.Python.{Python, is_falsy, show_value}
use flux_guard.Api.{get, Request, aborted, MapFds, check_auth, require, list_maps, allowlist}
use flux_guard.Api.Startup.{
  field, api_token, pin_dir, App, try_open, open_maps, start, is_open, health, Answer, from_maps,
  View, allowlist_view, run_view, dispatch,
}

module _ (B : Bpf) (M : HashMaps B) (H : IsHashMaps B M) where
  try_open_returns :
      (path : Text) (s : B.State)
      → (o : Option ℕ) × ((try_open B path s).0 ≡ ok o) × SameMaps M s (try_open B path s).1
  unfolding try_open bpf_obj_get
  try_open_returns path s = elim (Result-cases (bpf_obj_get B path s).0) [
    | inl (fd, e) ↦ (some fd, ground (arith, e), λ g j. ground (arith, e, H.get_lem path s g))
    | inr (x, e) ↦ (none, ground (arith, e), λ g j. ground (arith, e, H.get_lem path s g))
  ]

  open_maps_returns :
      (pin : Text) (s : B.State)
      → (fds : MapFds) × ((open_maps B pin s).0 ≡ ok fds) × SameMaps M s (open_maps B pin s).1
  unfolding open_maps
  open_maps_returns pin s =
      let path = λ (name : Text). pin ++ name in
      let (a, ea, ha) = try_open_returns (path (codes "/allowlist_map")) s in
      let s1 = (try_open B (path (codes "/allowlist_map")) s).1 in
      let (b, eb, hb) = try_open_returns (path (codes "/allowlist_map_v6")) s1 in
      let s2 = (try_open B (path (codes "/allowlist_map_v6")) s1).1 in
      let (c, ec, hc) = try_open_returns (path (codes "/blacklist_map")) s2 in
      let s3 = (try_open B (path (codes "/blacklist_map")) s2).1 in
      let (d, ed, hd) = try_open_returns (path (codes "/blacklist_map_v6")) s3 in
      (
        record { allowlist = a; allowlist_v6 = b; blacklist = c; blacklist_v6 = d },
        ground (arith, ea, eb, ec, ed),
        λ g j. ground (arith, ea, eb, ec, ed, ha g j, hb g j, hc g j, hd g j),
      )

  -- For hash maps as documented, and a pin directory that is a text: the server starts, whatever of
  -- the maps the kernel lets it open, and no map differs.
  start_returns :
      (cfg : Dict Value) (t : Text) (s : B.State)
      → field (codes "bpf_pin_dir") cfg ≡ str t
      → (fds : MapFds) × ((start B cfg s).0 ≡ ok (record { pin = rstrip b'/' t; fds = fds }))
        × SameMaps M s (start B cfg s).1
  unfolding start pin_dir
  start_returns cfg t s e =
      let (fds, q, same) = open_maps_returns (rstrip b'/' t) s in
      (fds, ground (arith, e, q), λ g j. ground (arith, e, q, same g j))

default_token : lookup (codes "api_token") defaults ≡ some (str [])
unfolding lookup text_dec
default_token = refl

module _ {C : Type 0} (D : Disk C) (J : Json C) (B : Bpf) (Y : Python)
    (urlopen : Text → Option Server.Response) (v4 v6 : Codec) (fuel : ℕ) (app : App) where
  abbrev serves : Text → D.State → View → Request → Exec B.State Answer
  serves path d = dispatch B Y urlopen v4 v6 fuel (load_config D J path d) app

  token_set :
      (path : Text) (d : D.State) (c : ℕ) (t : Text)
      → NodupKeys (in_file D J path d)
      → lookup (codes "api_token") (in_file D J path d) ≡ some (str (c ∷ t))
      → api_token Y (load_config D J path d) ≡ c ∷ t
  unfolding api_token field is_falsy show_value
  token_set path d c t u e =
      let q = (load_config_lem D J path d (codes "api_token") u).1 in
      ground (arith, q, default_token, e)

  token_unset :
      (path : Text) (d : D.State)
      → NodupKeys (in_file D J path d)
      → lookup (codes "api_token") (in_file D J path d) ≡ none
      → api_token Y (load_config D J path d) ≡ []
  unfolding api_token field is_falsy show_value
  token_unset path d u e =
      let q = (load_config_lem D J path d (codes "api_token") u).1 in
      ground (arith, q, default_token, e)

  -- Where the settings file has each key once, and a token that is a text and not empty: a request
  -- that does not carry it is answered by 401, whatever its view and method, and does nothing.
  pub dispatch-unauthorized :
      (path : Text) (d : D.State) (c : ℕ) (t : Text) (view : View) (req : Request) (s : B.State)
      → NodupKeys (in_file D J path d)
      → lookup (codes "api_token") (in_file D J path d) ≡ some (str (c ∷ t))
      → req.authorization ≢ codes "Bearer " ++ c ∷ t
      → serves path d view req s ≡ (ok (from_maps (aborted 401)), s)
  unfolding dispatch check_auth
  dispatch-unauthorized path d c t view req s u e n = ground (arith, token_set path d c t u e, n)

  -- Where the settings file has each key once and no token, as where it is missing or cannot be
  -- read: every request is let through to its view.
  pub dispatch-unguarded :
      (path : Text) (d : D.State) (view : View) (req : Request) (s : B.State)
      → NodupKeys (in_file D J path d)
      → lookup (codes "api_token") (in_file D J path d) ≡ none
      → serves path d view req s
        ≡ run_view B Y urlopen v4 v6 fuel (load_config D J path d) app view req s
  unfolding dispatch check_auth
  dispatch-unguarded path d view req s u e = ground (arith, token_unset path d u e)

-- An authorized reader of the allowlist is answered by 503 exactly if the health report says that
-- its IPv4 map is not open.
dispatch_available :
    (B : Bpf) (Y : Python) (urlopen : Text → Option Server.Response) (v4 v6 : Codec) (fuel : ℕ)
    (cfg : Dict Value) (app : App) (req : Request) (s : B.State)
    → req.method ≡ get
    → check_auth (api_token Y cfg) req.authorization ≡ true
    → ((dispatch B Y urlopen v4 v6 fuel cfg app allowlist_view req s).0
        ≡ ok (from_maps (aborted 503)))
      ↔ ((health app).allowlist_map ≡ false)
unfolding dispatch run_view allowlist list_maps require health is_open
dispatch_available B Y urlopen v4 v6 fuel cfg app req s g a =
    elim (Option-cases app.fds.allowlist) [
      | inl closed ↦ (λ e. ground (arith, closed), λ e. ground (arith, closed, g, a))
      | inr (fd, opened) ↦ (λ e. ground (arith, opened, g, a, e), λ e. ground (arith, opened, e))
    ]
