-- ===== src/Gateway/Config/Keys.antt =====
-- No key leaves by the view.
use ops_terminator.Base.{
  ℕ, Bool, true, false, List, [], ◌∷◌, Option, none, some, Result, ok, err, ◌≡◌, refl, ap,
  ok-injective, subst, map, All,
}
use ops_terminator.Gateway.Config.{
  GatewayPreset, GatewayConfig, GatewayConfigView, ConfigError, ConfigState, hide_key, shown_preset,
  active_gateway_preset, build_gateway_config_view, apply_gateway_config, update_gateway_config,
  validate_gateway_config,
}

abbrev pub HasNoKey : GatewayPreset → Type 0
HasNoKey p = p.api_key ≡ []

abbrev pub ShowsNoKey : Option GatewayPreset → Type 0
ShowsNoKey none = Unit
ShowsNoKey (some p) = HasNoKey p

-- No preset of the view has a key, and the view has the presets' ids in order.
pub record HidesKeys (config : GatewayConfig) (view : GatewayConfigView) : Type 0 where
  pub presets : All HasNoKey view.presets
  pub current : ShowsNoKey view.current_preset
  pub ids :
      map (λ (p : GatewayPreset). p.id) view.presets
      ≡ map (λ (p : GatewayPreset). p.id) config.presets

hide_key-All : (presets : List GatewayPreset) → All HasNoKey (map hide_key presets)
unfolding hide_key
hide_key-All [] = tt
hide_key-All (p ∷ presets) = (refl, hide_key-All presets)

hide_key-ids :
    (presets : List GatewayPreset)
    → map (λ (p : GatewayPreset). p.id) (map hide_key presets)
      ≡ map (λ (p : GatewayPreset). p.id) presets
unfolding hide_key
hide_key-ids [] = refl
hide_key-ids (p ∷ presets) = ap (◌∷◌ p.id) (hide_key-ids presets)

shown_preset-ShowsNoKey : (r : Result ConfigError GatewayPreset) → ShowsNoKey (shown_preset r)
unfolding shown_preset
shown_preset-ShowsNoKey (ok p) = refl
shown_preset-ShowsNoKey (err e) = tt

pub build_gateway_config_view-HidesKeys :
    (config : GatewayConfig) → HidesKeys config (build_gateway_config_view config)
unfolding build_gateway_config_view
build_gateway_config_view-HidesKeys config = record {
  presets = hide_key-All config.presets;
  current = shown_preset-ShowsNoKey (active_gateway_preset config);
  ids = hide_key-ids config.presets;
}

apply_gateway_config-HidesKeys :
    (writable : Bool) (s : ConfigState) (r : Result ConfigError (GatewayConfig × GatewayPreset))
    {view : GatewayConfigView}
    → (apply_gateway_config writable s r).1 ≡ ok view
    → (config : GatewayConfig) × ((apply_gateway_config writable s r).0.saved ≡ some config)
      × HidesKeys config view
unfolding apply_gateway_config
apply_gateway_config-HidesKeys writable s (err e) h = cc
apply_gateway_config-HidesKeys false s (ok (validated, active)) h = cc
apply_gateway_config-HidesKeys true s (ok (validated, active)) h = (
  validated,
  refl,
  subst (HidesKeys validated) (ok-injective h) (build_gateway_config_view-HidesKeys validated),
)

-- The view that an update returns has no key of any preset, neither among the presets nor in the
-- current one, and lists the presets that were saved, in order.
pub update_gateway_config-HidesKeys :
    (clock : ℕ → ℕ) (writable : Bool) (next : GatewayConfig) (s : ConfigState)
    {view : GatewayConfigView}
    → (update_gateway_config clock writable next s).1 ≡ ok view
    → (config : GatewayConfig) × ((update_gateway_config clock writable next s).0.saved
        ≡ some config)
      × HidesKeys config view
unfolding update_gateway_config
update_gateway_config-HidesKeys clock writable next s =
    apply_gateway_config-HidesKeys writable s (validate_gateway_config clock next s.gateway_config)
