-- ===== src/Config.antt =====
-- fluxguard_config.py: the settings as a dict of the dataclass's fields, and their file. A key of
-- the file that names what every Python object has, such as `__dict__`, is left out.
pub mod Laws
pub mod Python
use flux_guard.Base.{
  Bool, true, false, Option, none, some, [], ◌∷◌, if◌then◌else◌, Text, codes, has_char, rstrip,
}
use flux_guard.Base.Dict.{Dict, insert, contains_key}
use flux_guard.Base.Int.{ℤ, pos}
use flux_guard.Base.Exec.{Exec, ◌>>◌}

-- A value of JSON; a number with a point or an exponent is kept as it is written.
mutual
  pub data Value : Type 0 where
    null : Value
    flag : Bool → Value
    int : ℤ → Value
    float : Text → Value
    str : Text → Value
    array : Values → Value
    object : Members → Value

  pub data Values : Type 0 where
    no_more : Values
    item : Value → Values → Values

  pub data Members : Type 0 where
    no_members : Members
    member : Text → Value → Members → Members

-- `FluxGuardConfig()`
abbrev pub defaults : Dict Value
defaults =
    (codes "interface", str (codes "eth0"))
    ∷ (codes "xdp_mode", str (codes "auto"))
    ∷ (codes "bpf_pin_dir", str (codes "/sys/fs/bpf/fluxguard"))
    ∷ (codes "kern_pps_limit", int (pos 1000))
    ∷ (codes "global_pps_limit", int (pos 500000))
    ∷ (codes "poll_interval", float (codes "0.2"))
    ∷ (codes "cooldown_sec", int (pos 900))
    ∷ (codes "block_batch_size", int (pos 256))
    ∷ (codes "allowlist_refresh_sec", float (codes "5.0"))
    ∷ (codes "persistence_file", str (codes "/var/lib/fluxguard/blocked_ips.json"))
    ∷ (codes "log_file", str (codes "/var/log/fluxguard/fluxguard.log"))
    ∷ (codes "metrics_host", str (codes "127.0.0.1"))
    ∷ (codes "metrics_port", int (pos 9090))
    ∷ (codes "api_host", str (codes "127.0.0.1"))
    ∷ (codes "api_port", int (pos 8080))
    ∷ (codes "api_token", str [])
    ∷ (codes "drop_protocols", array no_more)
    ∷ (codes "verbose", flag false)
    ∷ (codes "no_log_ticks", flag true)
    ∷ []

-- `DEFAULT_CONFIG_TEMPLATE`, by what its text says.
abbrev pub default_config_template : Dict Value
default_config_template =
    (codes "interface", str (codes "eth0"))
    ∷ (codes "xdp_mode", str (codes "auto"))
    ∷ (codes "bpf_pin_dir", str (codes "/sys/fs/bpf/fluxguard"))
    ∷ (codes "kern_pps_limit", int (pos 1000))
    ∷ (codes "global_pps_limit", int (pos 500000))
    ∷ (codes "poll_interval", float (codes "0.2"))
    ∷ (codes "cooldown_sec", int (pos 900))
    ∷ (codes "block_batch_size", int (pos 256))
    ∷ (codes "allowlist_refresh_sec", float (codes "5.0"))
    ∷ (codes "persistence_file", str (codes "/var/lib/fluxguard/blocked_ips.json"))
    ∷ (codes "log_file", str (codes "/var/log/fluxguard/fluxguard.log"))
    ∷ (codes "metrics_host", str (codes "127.0.0.1"))
    ∷ (codes "metrics_port", int (pos 9090))
    ∷ (codes "api_host", str (codes "127.0.0.1"))
    ∷ (codes "api_port", int (pos 8080))
    ∷ (codes "api_token", str (codes "change-me-secret"))
    ∷ (codes "drop_protocols", array no_more)
    ∷ (codes "verbose", flag false)
    ∷ (codes "no_log_ticks", flag true)
    ∷ []

-- The files, by their contents, and `json`, with `none` where a read raises: parameters.
pub record Disk (Content : Type 0) : Type 1 where
  pub State : Type 0
  pub exists : Text → State → Bool
  pub read : Text → State → Option Content
  pub makedirs : Text → Exec State (Unit {0})
  pub write : Text → Content → Exec State (Unit {0})

pub record Json (Content : Type 0) : Type 0 where
  pub parse : Content → Option Value
  pub dump : Value → Content

-- `data.items()` of an object.
unfoldable pub items : Members → Dict Value
items no_members = []
items (member k v ms) = (k, v) ∷ items ms

unfoldable pub members : Dict Value → Members
members [] = no_members
members ((k, v) ∷ d) = member k v (members d)

-- `for key, val in data.items(): if hasattr(cfg, key): setattr(cfg, key, val)`
unfoldable pub set_fields : Dict Value → Dict Value → Dict Value
set_fields cfg [] = cfg
set_fields cfg ((key, val) ∷ data_items) =
    set_fields (if contains_key key cfg then insert key val cfg else cfg) data_items

-- `data.items()` raises for what is no object.
unfoldable pub with_data : Dict Value → Option Value → Dict Value
with_data cfg (some (object ms)) = set_fields cfg (items ms)
with_data cfg other = cfg

unfoldable pub with_text : {C : Type 0} → Json C → Dict Value → Option C → Dict Value
with_text J cfg none = cfg
with_text J cfg (some t) = with_data cfg (J.parse t)

-- The text up to its last `/`.
unfoldable pub up_to_slash : Text → Text
up_to_slash [] = []
up_to_slash (c ∷ path) =
    let rest = up_to_slash path in if has_char b'/' (c ∷ path) then c ∷ rest else []

-- `os.path.dirname`
unfoldable pub dirname : Text → Text
dirname path =
    let head = up_to_slash path in elim (rstrip b'/' head) [ [] ↦ head | c ∷ cut ↦ c ∷ cut ]

module _ {C : Type 0} (D : Disk C) (J : Json C) where
  unfoldable pub load_config : Text → D.State → Dict Value
  load_config path s = if D.exists path s then with_text J defaults (D.read path s) else defaults

  unfoldable pub save_config : Dict Value → Text → Exec D.State (Unit {0})
  save_config cfg path = D.makedirs (dirname path) >> D.write path (J.dump (object (members cfg)))
