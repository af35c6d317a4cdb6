-- ===== src/Config/Laws.antt =====
-- What `load_config` finds.
use flux_guard.Base.{
  ◌≡◌, refl, sym, ap, ◌∙◌, true, Option, none, some, List, [], ◌∷◌, if◌then◌else◌, arith, Text,
  text_dec,
}
use flux_guard.Base.Dict.{Dict, lookup, insert, contains_key, keys, NodupKeys}
use flux_guard.Base.Dict.Laws.{lookup-insert}
use flux_guard.Base.Exec.{ok}
use flux_guard.Config.{
  dirname, Value, object, defaults, Disk, Json, items, members, set_fields, with_data, with_text,
  load_config, save_config,
}

keys_head : {i j : Text} {is js : List Text} → i ∷ is ≡ j ∷ js → i ≡ j
keys_head q = cc

keys_tail : {i j : Text} {is js : List Text} → i ∷ is ≡ j ∷ js → is ≡ js
keys_tail q = cc

-- A setting with a default, unless the file has it; no other.
abbrev pub override : Option Value → Option Value → Option Value
override none o = none
override (some v) none = some v
override (some v) (some w) = some w

lookup-set_fields :
    (key : Text) (cfg d : Dict Value)
    → NodupKeys d
    → lookup key (set_fields cfg d) ≡ override (lookup key cfg) (lookup key d)
unfolding set_fields lookup contains_key
lookup-set_fields key cfg [] u = ground arith
lookup-set_fields key cfg ((k, v) ∷ d) (fresh, u) =
    let h = lookup-set_fields key (if contains_key k cfg then insert k v cfg else cfg) d u in
    ground (arith, h, lookup-insert key k v cfg, fresh)

keys-insert :
    (k : Text) (v : Value) (d : Dict Value) → contains_key k d ≡ true → keys (insert k v d) ≡ keys d
unfolding contains_key lookup insert
keys-insert k v [] h = ground arith
keys-insert k v ((j, w) ∷ d) h = ground (arith, keys-insert k v d)

keys-set_fields : (cfg d : Dict Value) → keys (set_fields cfg d) ≡ keys cfg
unfolding set_fields
keys-set_fields cfg [] = refl
keys-set_fields cfg ((k, v) ∷ d) =
    let h = keys-set_fields (if contains_key k cfg then insert k v cfg else cfg) d in
    ground (arith, h, keys-insert k v cfg)

items-members : (d : Dict Value) → items (members d) ≡ d
unfolding items members
items-members [] = refl
items-members ((k, v) ∷ d) = ap (λ r. (k, v) ∷ r) (items-members d)

-- What a dict lacks depends on its keys only.
lookup-none :
    (d e : Dict Value) (k : Text) → keys d ≡ keys e → lookup k e ≡ none → lookup k d ≡ none
unfolding lookup
lookup-none [] e k q h = refl
lookup-none (x ∷ d) [] k q h = cc
lookup-none ((i, v) ∷ d) ((j, w) ∷ e) k q h =
    ground (arith, h, lookup-none d e k (keys_tail q), keys_head q)

keys-NodupKeys : (d e : Dict Value) → keys d ≡ keys e → NodupKeys e → NodupKeys d
keys-NodupKeys [] e q u = tt
keys-NodupKeys (x ∷ d) [] q u = cc
keys-NodupKeys ((i, v) ∷ d) ((j, w) ∷ e) q (fresh, u) = (
  lookup-none d e i (keys_tail q) (ap (λ z. lookup z e) (keys_head q) ∙ fresh),
  keys-NodupKeys d e (keys_tail q) u,
)

-- Dicts with the same keys in the same order and the same values are the same.
lookup-ext :
    (d e : Dict Value)
    → NodupKeys d
    → NodupKeys e
    → keys d ≡ keys e
    → ((k : Text) → lookup k d ≡ lookup k e)
    → d ≡ e
unfolding lookup
lookup-ext [] [] u u' q h = refl
lookup-ext [] (y ∷ e) u u' q h = cc
lookup-ext (x ∷ d) [] u u' q h = cc
lookup-ext ((k, v) ∷ d) ((j, w) ∷ e) (fresh, u) (fresh', u') q h =
    let i : k ≡ j = keys_head q in
    let tail : d ≡ e =
      lookup-ext d e u u' (keys_tail q) (λ x. ground (arith, h x, fresh, fresh', i)) in
    let value : v ≡ w = ground (arith, h k, i) in ground (arith, i, value, tail)

defaults-NodupKeys : NodupKeys defaults
unfolding lookup text_dec
defaults-NodupKeys = (
  refl,
  (
    refl,
    (
      refl,
      (
        refl,
        (
          refl,
          (
            refl,
            (
              refl,
              (
                refl,
                (
                  refl,
                  (
                    refl,
                    (refl, (refl, (refl, (refl, (refl, (refl, (refl, (refl, (refl, tt))))))))),
                  ),
                ),
              ),
            ),
          ),
        ),
      ),
    ),
  ),
)

-- The settings are the dataclass's fields.
abbrev pub IsConfig : Dict Value → Type 0
IsConfig cfg = keys cfg ≡ keys defaults

override_self :
    (cfg : Dict Value) (k : Text)
    → IsConfig cfg
    → override (lookup k defaults) (lookup k cfg) ≡ lookup k cfg
override_self cfg k q =
    ground (arith, lookup-none cfg defaults k q, lookup-none defaults cfg k (sym q))

set_fields_self : (cfg : Dict Value) → IsConfig cfg → set_fields defaults cfg ≡ cfg
set_fields_self cfg q =
    let u = keys-NodupKeys cfg defaults q defaults-NodupKeys in
    lookup-ext (set_fields defaults cfg) cfg
      (keys-NodupKeys (set_fields defaults cfg) defaults (keys-set_fields defaults cfg)
        defaults-NodupKeys)
      u (keys-set_fields defaults cfg ∙ sym q)
      (λ k. lookup-set_fields k defaults cfg u ∙ override_self cfg k q)

module _ {C : Type 0} (D : Disk C) (J : Json C) where
  -- The settings that the file has: none where it is missing, cannot be read, is no JSON, or is no
  -- object.
  abbrev pub in_value : Option Value → Dict Value
  in_value (some (object ms)) = items ms
  in_value other = []

  abbrev pub in_text : Option C → Dict Value
  in_text none = []
  in_text (some t) = in_value (J.parse t)

  abbrev pub in_file : Text → D.State → Dict Value
  in_file path s = if D.exists path s then in_text (D.read path s) else []

  load_config-set_fields :
      (path : Text) (s : D.State) → load_config D J path s ≡ set_fields defaults (in_file path s)
  unfolding load_config with_text with_data set_fields
  load_config-set_fields path s = ground arith

  -- Whatever file there is, if any, with each key at most once: `load_config` returns each field
  -- of the dataclass and nothing else; a field that the file has, has its value from there, and
  -- any other its default.
  pub load_config_lem :
      (path : Text) (s : D.State) (key : Text)
      → NodupKeys (in_file path s)
      → IsConfig (load_config D J path s)
        × (lookup key (load_config D J path s)
            ≡ override (lookup key defaults) (lookup key (in_file path s)))
  load_config_lem path s key u = (
    ap keys (load_config-set_fields path s) ∙ keys-set_fields defaults (in_file path s),
    ap (lookup key) (load_config-set_fields path s)
        ∙ lookup-set_fields key defaults (in_file path s) u,
  )

  -- A written file is there, and is read as it was written.
  abbrev pub IsDisk : Type 0
  IsDisk =
      (path : Text) (t : C) (s s' : D.State)
      → D.write path t s ≡ (ok tt, s')
      → (D.exists path s' ≡ true) × (D.read path s' ≡ some t)

  -- Where a written file reads back as it was written, and JSON is parsed as it was dumped: after
  -- `save_config` of settings with the dataclass's fields, in their order, has returned,
  -- `load_config` returns the same settings.
  pub load_config-save_config :
      (cfg : Dict Value) (path : Text) (s s' : D.State)
      → IsDisk
      → ((v : Value) → J.parse (J.dump v) ≡ some v)
      → IsConfig cfg
      → save_config D J cfg path s ≡ (ok tt, s')
      → load_config D J path s' ≡ cfg
  unfolding save_config
  load_config-save_config cfg path s s' disk json q e =
      let w =
        disk path (J.dump (object (members cfg))) (D.makedirs (dirname path) s).1 s'
          (ground (arith, e)) in
      load_config-set_fields path s'
      ∙ ap (set_fields defaults)
          (rw (w.0, w.1, if◌then◌else◌, json (object (members cfg))) (items-members cfg))
      ∙ set_fields_self cfg q
