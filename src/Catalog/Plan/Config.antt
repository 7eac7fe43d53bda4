-- ===== src/Catalog/Plan/Config.antt =====
-- The values that the settings of a manifest get.
use mathlib.Core.List.{append-nil, append_assoc}
use opendash.Prelude.{
  ◌≡◌, refl, sym, ap, ◌∙◌, Bool-cases, inl, inr, arith, Option, none, String, Bool, true, false,
  ◌&&◌, some, List, [], ◌∷◌, ◌++◌, map, Result, ok, err, eq_iff, ◌==◌, if◌then◌else◌, trim_space,
  All,
}
use opendash.Models.Manifest.{Manifest, ManifestConfig}
use opendash.Prelude.Maps.{get, put, get-put, text_key}
use opendash.Models.Plan.{PlannedConfig}
use opendash.Catalog.Validate.{text_eq}
use opendash.Catalog.Validate.Accepted.{AllDistinct}
use opendash.Catalog.Plan.{
  or_default, invalid, config_required, Settings, PlanError, apply_config, config_loop,
  config_value,
}

-- the override of the setting, or its default
abbrev chosen : String → Option String → String
chosen default none = default
chosen default (some v) = v

abbrev pub setting_value : List (String × String) → ManifestConfig → String
setting_value overrides cfg = chosen cfg.default_value (get cfg.key overrides)

-- The setting has a value where it must have one.
abbrev pub IsFilled : List (String × String) → ManifestConfig → Type 0
IsFilled overrides cfg = (cfg.required && trim_space (setting_value overrides cfg) == "") ≡ false

-- the setting as the plan shows it
abbrev pub shown_setting : List (String × String) → ManifestConfig → PlannedConfig
shown_setting overrides cfg = record {
  key = cfg.key;
  value = setting_value overrides cfg;
  source = cfg.label;
  secret = cfg.secret;
}

value-setting :
    (overrides : List (String × String)) (cfg : ManifestConfig)
    → config_value overrides cfg ≡ setting_value overrides cfg
value-setting overrides cfg = go (get cfg.key overrides)
  where
    go : (o : Option String) → or_default cfg.default_value o ≡ chosen cfg.default_value o
    go none = refl
    go (some v) = refl

-- One turn of the loop, and the rest of it.
loop_step :
    (b : Bool) (k : PlanError) (rest : Result PlanError Settings) {s : Settings}
    → (if b then err k else rest) ≡ ok s
    → (b ≡ false) × (rest ≡ ok s)
loop_step true k rest h = cc
loop_step false k rest h = (refl, h)

-- what a loop that succeeds has seen of the settings
abbrev IsPlanned :
    List (String × String) → List ManifestConfig → List PlannedConfig → Settings → Type 0
IsPlanned overrides cfgs planned s =
    All (IsFilled overrides) cfgs × (s.1 ≡ planned ++ map (shown_setting overrides) cfgs)

loop-IsPlanned :
    (overrides : List (String × String)) (cfgs : List ManifestConfig)
    (values : List (String × String)) (planned : List PlannedConfig) {s : Settings}
    → config_loop overrides cfgs (values, planned) ≡ ok s
    → IsPlanned overrides cfgs planned s
loop-IsPlanned overrides [] values planned h = (tt, rw append-nil cc)
loop-IsPlanned overrides (cfg ∷ cfgs) values planned h =
    let f = loop_step (cfg.required && trim_space (config_value overrides cfg) == "") _ _ h in
    let g = loop-IsPlanned overrides cfgs _ _ f.1 in
    (
      (rw (sym (value-setting overrides cfg)) f.0, g.0),
      g.1
          ∙ rw (value-setting overrides cfg)
              (append_assoc planned (shown_setting overrides cfg ∷ []) _),
    )

-- Settings of other keys leave a value.
loop-get_other :
    (overrides : List (String × String)) (key : String) (cfgs : List ManifestConfig)
    (values : List (String × String)) (planned : List PlannedConfig) {s : Settings}
    → All (λ (c : ManifestConfig). text_eq c.key key ≡ false) cfgs
    → config_loop overrides cfgs (values, planned) ≡ ok s
    → get key s.0 ≡ get key values
loop-get_other overrides key [] values planned ne h = cc
loop-get_other overrides key (cfg ∷ cfgs) values planned ne h =
    let f = loop_step (cfg.required && trim_space (config_value overrides cfg) == "") _ _ h in
    loop-get_other overrides key cfgs (put cfg.key (config_value overrides cfg) values) _ ne.1 f.1
    ∙ rw (get-put, ne.0)

put_self : (key v : String) (m : List (String × String)) → get key (put key v m) ≡ some v
put_self key v m = rw (get-put, (eq_iff key key).1 refl)

loop-get :
    (overrides : List (String × String)) (cfgs : List ManifestConfig)
    (values : List (String × String)) (planned : List PlannedConfig) {s : Settings}
    → AllDistinct text_eq (λ (c : ManifestConfig). c.key) cfgs
    → config_loop overrides cfgs (values, planned) ≡ ok s
    → All (λ (c : ManifestConfig). get c.key s.0 ≡ some (setting_value overrides c)) cfgs
loop-get overrides [] values planned d h = tt
loop-get overrides (cfg ∷ cfgs) values planned d h =
    let f = loop_step (cfg.required && trim_space (config_value overrides cfg) == "") _ _ h in
    (
      loop-get_other overrides cfg.key cfgs (put cfg.key (config_value overrides cfg) values) _ d.0
            f.1
          ∙ put_self cfg.key (config_value overrides cfg) values
          ∙ ap (λ (v : String). some v) (value-setting overrides cfg),
      loop-get overrides cfgs _ _ d.1 f.1,
    )

-- The first setting that must have a value and has none.
abbrev pub FirstBlank : List (String × String) → List ManifestConfig → String → Type 0
FirstBlank overrides cfgs key =
    (before : List ManifestConfig) × (cfg : ManifestConfig) × (rest : List ManifestConfig) × (cfgs
      ≡ before ++ (cfg ∷ rest))
    × All (IsFilled overrides) before
    × (cfg.required ≡ true)
    × (trim_space (setting_value overrides cfg) ≡ "")
    × (key ≡ cfg.key)

abbrev pub Answers :
    List (String × String) → List ManifestConfig → Result PlanError Settings → Type 0
Answers overrides cfgs (ok s) = All (IsFilled overrides) cfgs
Answers overrides cfgs (err (config_required key)) = FirstBlank overrides cfgs key
Answers overrides cfgs (err (invalid e)) = ⊥

next-Answers :
    (overrides : List (String × String)) (cfg : ManifestConfig) (cfgs : List ManifestConfig)
    (r : Result PlanError Settings)
    → IsFilled overrides cfg
    → Answers overrides cfgs r
    → Answers overrides (cfg ∷ cfgs) r
next-Answers overrides cfg cfgs (ok s) f h = (f, h)
next-Answers overrides cfg cfgs (err (config_required key)) f (before, c, rest, e, fs, g, h, i) =
    (cfg ∷ before, c, rest, ap (λ (cs : List ManifestConfig). cfg ∷ cs) e, (f, fs), g, h, i)
next-Answers overrides cfg cfgs (err (invalid e)) f h = absurd h

loop-Answers :
    (overrides : List (String × String)) (cfgs : List ManifestConfig) (acc : Settings)
    → Answers overrides cfgs (config_loop overrides cfgs acc)
loop-Answers overrides [] acc = tt
loop-Answers overrides (cfg ∷ cfgs) (values, planned) =
    elim (Bool-cases (cfg.required && trim_space (config_value overrides cfg) == "")) [
      | inl e ↦ rw e (
        [],
        cfg,
        cfgs,
        refl,
        tt,
        ground (arith, e),
        (eq_iff _ _).0 (rw (sym (value-setting overrides cfg)) (ground (arith, e))),
        refl,
      )
      | inr e ↦ rw e (
          next-Answers overrides cfg cfgs _ (rw (sym (value-setting overrides cfg)) e)
            (loop-Answers overrides cfgs _))
    ]

-- Where no two settings share a key and the settings are accepted: every required one has a value that
-- is not blank; each has its override as its value, or its default where there is none; and the plan
-- lists them in the order of the manifest with these values, their labels and whether they are secret.
pub apply_config-values :
    (m : Manifest) (overrides : List (String × String)) {s : Settings}
    → AllDistinct text_eq (λ (c : ManifestConfig). c.key) m.config
    → apply_config m overrides ≡ ok s
    → All (IsFilled overrides) m.config
      × All (λ (c : ManifestConfig). get c.key s.0 ≡ some (setting_value overrides c)) m.config
      × (s.1 ≡ map (shown_setting overrides) m.config)
unfolding apply_config
apply_config-values m overrides d h =
    let f = loop-IsPlanned overrides m.config [] [] h in
    (f.0, loop-get overrides m.config [] [] d h, f.1)

-- The settings are accepted only where every required one has a value that is not blank. The only other answer is an error
-- that names the first setting that is required and has a blank value: all those before it are filled.
pub apply_config-Answers :
    (m : Manifest) (overrides : List (String × String))
    → Answers overrides m.config (apply_config m overrides)
unfolding apply_config
apply_config-Answers m overrides = loop-Answers overrides m.config ([], [])
