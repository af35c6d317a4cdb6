-- ===== src/Tests/Config.antt =====
-- A disk of files by their paths, which hold values as they are, and a file with two settings.
use flux_guard.Base.{◌≡◌, refl, some, [], ◌∷◌, arith, Text, codes, same, text_dec}
use flux_guard.Base.Dict.{Dict, lookup, insert, contains_key, NodupKeys}
use flux_guard.Base.Dict.Laws.{lookup-insert}
use flux_guard.Base.Exec.{ok}
use flux_guard.Config.{
  Value, str, object, no_members, member, members, items, defaults, default_config_template, Disk,
  Json, load_config, save_config,
}
use flux_guard.Config.Laws.{
  IsConfig, IsDisk, override, in_file, load_config_lem, load_config-save_config,
}
use flux_guard.Config.Python.{Python}

abbrev pub python : Python
python = record {
  show = λ v. codes "9090";
  is_zero = λ t. same t (codes "0.0");
  canonical_v6 = λ t. t;
}

abbrev pub disk : Disk Value
disk = record {
  State = Dict Value;
  exists = contains_key;
  read = lookup;
  makedirs = λ path s. (ok tt, s);
  write = λ path t s. (ok tt, insert path t s);
}

abbrev pub json : Json Value
json = record { parse = λ c. some c; dump = λ v. v }

abbrev pub path : Text
path = codes "/etc/fluxguard/config.json"

abbrev pub files : Dict Value
files =
    (
      path,
      object (
          member (codes "api_token") (str (codes "secret"))
            (member (codes "colour") (str (codes "red")) no_members)),
    )
    ∷ []

pub settings-NodupKeys : NodupKeys (in_file disk json path files)
unfolding lookup contains_key text_dec items
settings-NodupKeys = (refl, (refl, tt))

load_config_example :
    IsConfig (load_config disk json path files)
    × (lookup (codes "api_token") (load_config disk json path files)
        ≡ override
            (lookup (codes "api_token") defaults)
            (lookup (codes "api_token") (in_file disk json path files)))
load_config_example = load_config_lem disk json path files (codes "api_token") settings-NodupKeys

disk-IsDisk : IsDisk disk json
unfolding contains_key
disk-IsDisk path t s s' e = ground (arith, e, lookup-insert path path t s)

-- The template that the setup writes, over the file that was there.
load_config-save_config_example :
    load_config disk json path (insert path (object (members default_config_template)) files)
    ≡ default_config_template
unfolding save_config
load_config-save_config_example =
    load_config-save_config disk json default_config_template path files _ disk-IsDisk (λ v. refl)
      refl refl
