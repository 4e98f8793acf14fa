-- ===== src/Examples/GatewayRuns.antt =====
-- Runs of internal/gateway/service.go.
use ops_terminator.Base.{
  ℕ, true, false, List, [], ◌∷◌, Option, none, some, Result, ok, ◌≡◌, refl, text_beq, ◌&&◌,
}
use ops_terminator.Base.Int.{ℤ, pos}
use ops_terminator.Base.Text.{Text, bytes, trim_space, is_space, one_of}
use ops_terminator.Base.Text.Decimal.{decimal}
use ops_terminator.Models.{Run, run_status_running_agent, new_id}
use ops_terminator.Models.Hosts.{Host}
use ops_terminator.Models.Sessions.{
  Session, Turn, OperatorProfile, default_operator_profile, KnowledgeItem, ExecutionResult,
  host_mode_local,
}
use ops_terminator.Store.{
  Disk, lookup, read_file, write_file, text_lt, save_object, get_object, list_objects,
}
use ops_terminator.Store.Log.{append_event}
use ops_terminator.Events.{new_hub, emit, offer_to, offer_all}
use ops_terminator.Agent.Settings.{
  default_runtime_settings, normalize_runtime_settings, positive_or, not_negative_or,
}
use ops_terminator.Gateway.Config.{
  GatewayPreset, GatewayConfig, GatewayConfigView, ConfigError, ConfigState,
  validate_gateway_config, validate_presets, check_preset, trim_preset, trim_slashes, keep_previous,
  previous_by_id, embedding_model_of, current_or_first, active_gateway_preset, find_preset,
  apply_gateway_config, build_gateway_config_view, hide_key, shown_preset, clone_gateway_config,
  update_gateway_config,
}
use ops_terminator.Gateway.Config.Keys.{HidesKeys, update_gateway_config-HidesKeys}
use ops_terminator.Gateway.Config.Valid.{IsValid, validate_gateway_config-IsValid}
use ops_terminator.Gateway.Context.{Builder, is_current, after_probe, ensure_host_profile, build}
use ops_terminator.Gateway.Service.{
  World, GatewayError, and_then, ◌>>=◌, ignore, get_host, get_session, get_run, get_turn,
  save_session, save_turn, save_run, get_operator_profile, record_timed, record_event, announce,
}
use ops_terminator.Gateway.Runs.{
  RunRequest, ExecutionInput, new_run, new_turn, normalize_operator_profile,
  merge_run_mode_into_settings, profile_found, operator_profile, start_session, continue_session,
  ensure_session, allowed_settings, store_run, create_run,
}
use ops_terminator.Gateway.Runs.Bypass.{prepare_run-create_run}
use ops_terminator.Gateway.Runs.Refused.{IsRefused, create_run-IsRefused}
use ops_terminator.Gateway.Process.{
  history_turns, insert_by_created, sort_by_created, run_settings, prepare_run, process_run,
}
use ops_terminator.Gateway.Process.Finish.{IsEnded, process_run-IsEnded, process_run-sessions}
use ops_terminator.Gateway.Zero.{no_host_profile, no_memory, no_stats, new_session}

abbrev pub healthy : Disk
healthy = record { writable = λ d i. true; readable = λ d i. true; removable = λ d i. true }

abbrev pub clock : ℕ → ℕ
clock n = n

abbrev pub local_host : Host
local_host = record {
  id = bytes "h";
  display_name = bytes "h";
  mode = host_mode_local;
  address = [];
  port = pos 0;
  user = [];
  password_env = [];
  tags = [];
  labels = [];
  created_at = 1;
  updated_at = 1;
}

-- A profile that allows to bypass approvals.
abbrev pub lenient : OperatorProfile
lenient = record default_operator_profile { allow_bypass_approvals = true }

abbrev pub world : World
world = record {
  hosts = (bytes "h", local_host) ∷ [];
  sessions = [];
  turns = [];
  runs = [];
  knowledge = [];
  automations = [];
  logs = [];
  audit = [];
  operator_profile = some lenient;
  settings = default_runtime_settings;
  embedding_model = [];
  hub = new_hub;
  readings = 1;
}

abbrev pub builder : Builder
builder = record {
  select_skills = λ input n. [];
  tool_summaries = [];
  policy_summary = [];
  probe_host_profile = λ host. ok no_host_profile;
}

abbrev pub select_nothing : Text → ℤ → World → Result Text (List KnowledgeItem)
select_nothing input limit w = ok []

abbrev request : RunRequest
request = record {
  host_id = bytes "h";
  session_id = [];
  user_input = bytes "df";
  requested_by = bytes "web";
  bypass_approvals = some true;
}

-- What `CreateRun` leaves, and its run.
abbrev outcome : World × Result GatewayError Run
outcome = create_run clock healthy builder select_nothing request world

unfoldable pub run_create : Text
unfolding lookup read_file write_file text_lt save_object get_object append_event emit offer_to
    offer_all is_current after_probe ensure_host_profile and_then ◌>>=◌ ignore get_host get_session
    get_operator_profile save_session save_turn save_run record_timed record_event announce
    normalize_operator_profile profile_found operator_profile start_session continue_session
    ensure_session allowed_settings store_run create_run normalize_runtime_settings bytes trim_space
    is_space text_beq
run_create = []

abbrev run : Run
run =
    new_run (new_id (bytes "run") 6) (new_id (bytes "session") 2) (new_id (bytes "turn") 5)
      (bytes "h") (bytes "web") true 4

created : outcome ≡ (outcome.0, ok run)
unfolding run_create
created = refl

-- What `processRun` starts with.
abbrev start : World × Result GatewayError ExecutionInput
start = prepare_run clock healthy run.id outcome.0

abbrev session : Session
session = record (new_session (new_id (bytes "session") 2) (bytes "h") (bytes "df") true 1) {
  memory = record no_memory { last_host_profile_at = some 3 };
  turn_ids = run.turn_id ∷ [];
  run_ids = run.id ∷ [];
  last_input = bytes "df";
  updated_at = 4;
}

abbrev turn : Turn
turn =
    new_turn run.turn_id session.id (bytes "h") (bytes "df")
      (build builder local_host session (bytes "df") lenient []) run.id 4

abbrev input : ExecutionInput
input = record {
  run = record run { status = run_status_running_agent; updated_at = 8 };
  host = local_host;
  session = session;
  current_turn = turn;
  historical_turns = [];
  runtime_settings = record default_runtime_settings { bypass_approvals = true };
  operator_profile = lenient;
  knowledge_matches = [];
}

unfoldable run_start : Text
unfolding run_create build get_run get_turn list_objects history_turns insert_by_created
    sort_by_created merge_run_mode_into_settings run_settings prepare_run new_id decimal positive_or
    not_negative_or
run_start = []

prepared : start ≡ (start.0, ok input)
unfolding run_start
prepared = refl

prepare_run-create_run_example :
    input.runtime_settings.bypass_approvals
    ≡ (run.bypass_approvals && lenient.allow_bypass_approvals)
prepare_run-create_run_example =
    prepare_run-create_run clock healthy builder select_nothing request lenient world outcome.0
      outcome.0 start.0 run input refl created refl refl prepared

abbrev no_result : ExecutionResult
no_result = record {
  messages = [];
  tool_results = [];
  tool_history = [];
  policy_history = [];
  prompt_stats = no_stats;
  memory = no_memory;
  final_response = [];
}

-- The same world with the profile that is stored first.
abbrev strict : World
strict = record world { operator_profile = some default_operator_profile }

create_run-IsRefused_example :
    IsRefused strict (create_run clock healthy builder select_nothing request strict)
create_run-IsRefused_example =
    create_run-IsRefused clock healthy builder select_nothing request default_operator_profile
      strict refl refl refl

-- An `Execute` while which the mode of the session is turned off.
abbrev execute : ExecutionInput → World → World × ExecutionResult × Option Text
execute i w =
    ((save_session healthy (record i.session { bypass_approvals = false }) w).0, no_result, none)

process_run-sessions_example :
    (s : Session) × (lookup session.id
        (process_run clock healthy none execute run.id outcome.0).0.sessions
      ≡ some s)
    × (s.turn_ids ≡ session.turn_ids)
    × (s.run_ids ≡ session.run_ids)
    × (s.bypass_approvals ≡ true)
process_run-sessions_example =
    process_run-sessions clock healthy none execute run.id outcome.0 start.0 input (λ dir id. refl)
      prepared refl

process_run-IsEnded_example :
    (r : Run) × (lookup run.id (process_run clock healthy none execute run.id outcome.0).0.runs
      ≡ some r)
    × IsEnded none r
process_run-IsEnded_example =
    process_run-IsEnded clock healthy none execute run.id outcome.0 start.0 input (λ dir id. refl)
      prepared

abbrev preset : GatewayPreset
preset = record {
  id = bytes "p";
  name = bytes "main";
  base_url = bytes "http://x/";
  api_key = bytes "k";
  api_key_configured = false;
  model = bytes "m";
  created_at = 1;
  updated_at = 1;
}

abbrev config : GatewayConfig
config = record {
  current_preset_id = bytes "p";
  presets = preset ∷ [];
  runtime_settings = default_runtime_settings;
  embedding_model = bytes "e";
  updated_at = 1;
}

abbrev config_state : ConfigState
config_state = record { gateway_config = config; saved = none; client = none }

abbrev accepted : Result ConfigError (GatewayConfig × GatewayPreset)
accepted =
    validate_gateway_config clock (record config { presets = record preset { api_key = [] } ∷ [] })
      config

abbrev stored : GatewayPreset
stored = record preset { base_url = bytes "http://x"; updated_at = 0 }

abbrev stored_config : GatewayConfig
stored_config = record config { presets = stored ∷ []; updated_at = 0 }

unfoldable run_config : Text
unfolding validate_gateway_config validate_presets check_preset trim_preset trim_slashes
    keep_previous previous_by_id embedding_model_of current_or_first active_gateway_preset
    find_preset normalize_runtime_settings apply_gateway_config update_gateway_config
    build_gateway_config_view hide_key shown_preset clone_gateway_config bytes trim_space is_space
    text_beq one_of positive_or not_negative_or
run_config = []

accepted_ok : accepted ≡ ok (stored_config, stored)
unfolding run_config
accepted_ok = refl

validate_gateway_config-IsValid_example : IsValid stored_config stored
validate_gateway_config-IsValid_example =
    validate_gateway_config-IsValid clock
      (record config { presets = record preset { api_key = [] } ∷ [] }) config accepted_ok

abbrev shown : GatewayPreset
shown = record stored { api_key = []; api_key_configured = true }

abbrev view : GatewayConfigView
view = record {
  current_preset_id = bytes "p";
  current_preset = some shown;
  presets = shown ∷ [];
  runtime_settings = default_runtime_settings;
  embedding_model = bytes "e";
  updated_at = 0;
}

updated_ok : (update_gateway_config clock true config config_state).1 ≡ ok view
unfolding run_config
updated_ok = refl

update_gateway_config-HidesKeys_example :
    (c : GatewayConfig) × ((update_gateway_config clock true config config_state).0.saved ≡ some c)
    × HidesKeys c view
update_gateway_config-HidesKeys_example =
    update_gateway_config-HidesKeys clock true config config_state updated_ok
