-- ===== src/Gateway/Config.antt =====
-- The gateway configuration in internal/gateway/service.go: presets of a chat service, the runtime
-- settings, and the view of them that leaves the process.
pub mod Keys
pub mod Valid
use ops_terminator.Base.{
  ◌>>=◌, ℕ, suc, Bool, not, List, [], ◌∷◌, Option, none, some, Result, ok, err, ◌==◌, text_eq,
  nat_eq, if◌then◌else◌, is_empty, map,
}
use ops_terminator.Base.Text.{Text, bytes, trim_space, one_of}
use ops_terminator.Models.{new_id}
use ops_terminator.Agent.Settings.{RuntimeSettings, normalize_runtime_settings}

-- `GatewayPreset`.
pub record GatewayPreset : Type 0 where
  pub id : Text
  pub name : Text
  pub base_url : Text
  pub api_key : Text
  pub api_key_configured : Bool
  pub model : Text
  pub created_at : ℕ
  pub updated_at : ℕ

-- `GatewayConfig`.
pub record GatewayConfig : Type 0 where
  pub current_preset_id : Text
  pub presets : List GatewayPreset
  pub runtime_settings : RuntimeSettings
  pub embedding_model : Text
  pub updated_at : ℕ

-- `GatewayConfigView`.
pub record GatewayConfigView : Type 0 where
  pub current_preset_id : Text
  pub current_preset : Option GatewayPreset
  pub presets : List GatewayPreset
  pub runtime_settings : RuntimeSettings
  pub embedding_model : Text
  pub updated_at : ℕ

pub data ConfigError : Type 0 where
  no_current_preset no_presets name_required : ConfigError
  preset_not_found duplicate_id base_url_required model_required api_key_required :
      Text → ConfigError
  save_failed : ConfigError

-- The loop of `activeGatewayPreset`.
unfoldable pub find_preset : Text → List GatewayPreset → Result ConfigError GatewayPreset
find_preset id [] = err (preset_not_found id)
find_preset id (p ∷ presets) = if p.id == id then ok p else find_preset id presets

-- `activeGatewayPreset`.
unfoldable pub active_gateway_preset : GatewayConfig → Result ConfigError GatewayPreset
unfolding find_preset
active_gateway_preset config =
    let current = trim_space config.current_preset_id in
    if current == [] then err no_current_preset else find_preset current config.presets

-- A preset as the view shows it.
unfoldable pub hide_key : GatewayPreset → GatewayPreset
hide_key p = record p { api_key_configured = not (trim_space p.api_key == []); api_key = [] }

-- `view.CurrentPreset`.
unfoldable pub shown_preset : Result ConfigError GatewayPreset → Option GatewayPreset
unfolding hide_key
shown_preset (ok p) = some (hide_key p)
shown_preset (err _) = none

-- `buildGatewayConfigView`.
unfoldable pub build_gateway_config_view : GatewayConfig → GatewayConfigView
unfolding shown_preset hide_key
build_gateway_config_view config = record {
  current_preset_id = config.current_preset_id;
  current_preset = shown_preset (active_gateway_preset config);
  presets = map hide_key config.presets;
  runtime_settings = normalize_runtime_settings config.runtime_settings;
  embedding_model = trim_space config.embedding_model;
  updated_at = config.updated_at;
}

-- `cloneGatewayConfig`.
unfoldable pub clone_gateway_config : GatewayConfig → GatewayConfig
clone_gateway_config config = record config {
  runtime_settings = normalize_runtime_settings config.runtime_settings;
  embedding_model = trim_space config.embedding_model;
}

-- `strings.TrimRight(s, "/")`.
unfoldable pub trim_slashes : Text → Text
trim_slashes [] = []
trim_slashes (c ∷ s) =
    let rest = trim_slashes s in
    if is_empty rest then (if c == b'/' then [] else c ∷ []) else c ∷ rest

-- `previousByID[id]`: the last of the presets with the id.
unfoldable pub previous_by_id : Text → List GatewayPreset → Option GatewayPreset
previous_by_id id [] = none
previous_by_id id (p ∷ presets) = elim (previous_by_id id presets) [
  | some q ↦ some q
  | none ↦ if p.id == id then some p else none
]

-- The assignments from the previous preset of the same id.
unfoldable pub keep_previous : Option GatewayPreset → GatewayPreset → GatewayPreset
keep_previous none p = p
keep_previous (some q) p = record p {
  created_at = q.created_at;
  api_key = if p.api_key == [] then q.api_key else p.api_key;
}

-- The trimming of a preset, with `fresh` as the id that is made where it has none.
unfoldable pub trim_preset : Text → GatewayPreset → GatewayPreset
trim_preset fresh p = record p {
  id = if trim_space p.id == [] then fresh else trim_space p.id;
  name = trim_space p.name;
  base_url = trim_slashes (trim_space p.base_url);
  api_key = trim_space p.api_key;
  model = trim_space p.model;
}

-- `if value == "" { return ... }`.
abbrev pub require : Text → ConfigError → Result ConfigError (Unit {0})
require value e = if value == [] then err e else ok tt

abbrev pub require_new : Text → List Text → Result ConfigError (Unit {0})
require_new id seen = if one_of id seen then err (duplicate_id id) else ok tt

abbrev pub require_presets : List GatewayPreset → Result ConfigError (Unit {0})
require_presets presets = if is_empty presets then err no_presets else ok tt

-- One round of the loop over the presets, once the preset is trimmed.
unfoldable pub check_preset :
    ℕ → List GatewayPreset → List Text → GatewayPreset → Result ConfigError GatewayPreset
unfolding keep_previous
check_preset now previous seen p = do
  _ ← require_new p.id seen
  _ ← require p.name name_required
  _ ← require p.base_url (base_url_required p.name)
  _ ← require p.model (model_required p.name)
  let kept = keep_previous (previous_by_id p.id previous) p
  _ ← require kept.api_key (api_key_required p.name)
  ok (record kept {
    created_at = if kept.created_at == 0 then now else kept.created_at;
    updated_at = now;
  })

-- The loop over the presets. The clock is read for the ids that are made, at most once for a preset.
module _ (clock : ℕ → ℕ) (now : ℕ) (previous : List GatewayPreset) where
  unfoldable pub validate_presets :
      ℕ → List Text → List GatewayPreset → Result ConfigError (List GatewayPreset)
  validate_presets i seen [] = ok []
  validate_presets i seen (p ∷ presets) = do
    checked ←
        check_preset now previous seen (trim_preset (new_id (bytes "gateway") (clock (suc i))) p)
    rest ← validate_presets (suc i) (checked.id ∷ seen) presets
    ok (checked ∷ rest)

-- `result.EmbeddingModel`.
unfoldable pub embedding_model_of : Text → Text → Text
embedding_model_of next previous =
    if not (next == [])
    then next
    else if not (previous == [])
    then previous
    else bytes "text-embedding-3-small"

-- `result.CurrentPresetID`, once the presets are there.
unfoldable pub current_or_first : Text → List GatewayPreset → Text
current_or_first current [] = current
current_or_first current (p ∷ _) = if current == [] then p.id else current

-- `validateGatewayConfig`.
unfoldable pub validate_gateway_config :
    (ℕ → ℕ) → GatewayConfig → GatewayConfig → Result ConfigError (GatewayConfig × GatewayPreset)
unfolding embedding_model_of current_or_first
validate_gateway_config clock next previous = do
  let now = clock 0
  _ ← require_presets next.presets
  presets ← validate_presets clock now previous.presets 0 [] next.presets
  let result : GatewayConfig = record {
    current_preset_id = current_or_first (trim_space next.current_preset_id) presets;
    presets = presets;
    runtime_settings = normalize_runtime_settings next.runtime_settings;
    embedding_model =
        embedding_model_of (trim_space next.embedding_model) (trim_space previous.embedding_model);
    updated_at = now;
  }
  active ← active_gateway_preset result
  ok (result, active)

-- The service's copy of the configuration, the file of the store, and what the chat client was told
-- last.
pub record ConfigState : Type 0 where
  pub gateway_config : GatewayConfig
  pub saved : Option GatewayConfig
  pub client : Option (Text × Text × Text)

-- What follows the validation of `UpdateGatewayConfig`, where there is a chat client.
unfoldable pub apply_gateway_config :
    Bool
    → ConfigState
    → Result ConfigError (GatewayConfig × GatewayPreset)
    → ConfigState × Result ConfigError GatewayConfigView
apply_gateway_config writable s (err e) = (s, err e)
apply_gateway_config writable s (ok (validated, active)) =
    if writable
    then (
      record {
        gateway_config = clone_gateway_config validated;
        saved = some validated;
        client = some (active.base_url, active.api_key, active.model);
      },
      ok (build_gateway_config_view validated),
    )
    else (s, err save_failed)

-- `UpdateGatewayConfig`; `writable` says whether the store can write its file.
unfoldable pub update_gateway_config :
    (ℕ → ℕ)
    → Bool
    → GatewayConfig
    → ConfigState
    → ConfigState × Result ConfigError GatewayConfigView
unfolding apply_gateway_config
update_gateway_config clock writable next s =
    apply_gateway_config writable s (validate_gateway_config clock next s.gateway_config)
