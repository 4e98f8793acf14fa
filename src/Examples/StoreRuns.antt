-- ===== src/Examples/StoreRuns.antt =====
-- Runs of internal/store/json_store.go, internal/events/hub.go and the stream sink of
-- internal/agent/runtime.go.
use ops_terminator.Base.{
  Bool, true, false, List, [], ◌∷◌, ◌++◌, none, some, ok, ◌≡◌, ◌≢◌, refl, arith, text_beq,
  if◌then◌else◌, ◌==◌, nat_eq, text_eq,
}
use ops_terminator.Base.Text.{Text, bytes}
use ops_terminator.Models.{Event}
use ops_terminator.Store.{Disk, Table, lookup, write_file}
use ops_terminator.Store.Log.{lines_of, append_event, list_events_by_run}
use ops_terminator.Store.Log.Appended.{
  IsTaken, list_events_by_run-append_event, list_events_by_run-not_taken,
}
use ops_terminator.Events.{Hub, new_hub, subscribers_of, subscribe, cancel, offer_all, emit}
use ops_terminator.Events.Bounded.{
  IsBounded, IsReachable, created, subscribed, emitted, cancel-subscribe,
}
use ops_terminator.Events.Once.{IsOnce, IsReachable-IsOnce}
use ops_terminator.Events.Delivery.{emit-subscribers_of, emit-subscribers_of_all}
use ops_terminator.Agent.Stream.Prefix
use ops_terminator.Agent.Stream.Prefix.{given, passed, passed-IsBounded}
use ops_terminator.Base.Int.{negsuc, pos}
use ops_terminator.Agent.Settings.{
  RuntimeSettings, default_runtime_settings, normalize_runtime_settings,
}
use ops_terminator.Agent.Settings.Usable.{IsUsable, normalize_runtime_settings_lem}

abbrev event : Text → Event
event message = record {
  id = bytes "event_1";
  run_id = bytes "run_1";
  type_name = bytes "run.tool_running";
  message = message;
  payload = [];
  timestamp = 1;
}

abbrev healthy : Disk
healthy = record { writable = λ d i. true; readable = λ d i. true; removable = λ d i. true }

abbrev not_long : Text → Bool
not_long [] = true
not_long (_ ∷ []) = true
not_long (_ ∷ _ ∷ _) = false

-- A scanner that does not take the lines of long messages.
abbrev takes : Event → Bool
takes e = not_long e.message

abbrev logs : Table (List Event)
logs = (bytes "run_1", event (bytes "a") ∷ []) ∷ []

abbrev longer_logs : Table (List Event)
longer_logs = (bytes "run_1", event (bytes "a") ∷ event (bytes "b") ∷ []) ∷ []

append_runs : append_event healthy (event (bytes "b")) logs ≡ ok longer_logs
unfolding append_event lookup write_file bytes text_beq
append_runs = refl

logs-IsTaken : IsTaken takes (lines_of (lookup (bytes "run_1") logs))
unfolding lookup bytes text_beq
logs-IsTaken = (refl, tt)

b_is_short : takes (event (bytes "b")) ≡ true
unfolding bytes
b_is_short = refl

list_events_by_run-append_event_example :
    list_events_by_run healthy takes (bytes "run_1") longer_logs
    ≡ (lines_of (lookup (bytes "run_1") logs) ++ (event (bytes "b") ∷ []), none)
list_events_by_run-append_event_example =
    list_events_by_run-append_event healthy takes (event (bytes "b")) logs refl logs-IsTaken
      b_is_short append_runs

-- Logs with a long event in the middle.
abbrev blocked_logs : Table (List Event)
blocked_logs = (bytes "run_1", event (bytes "a") ∷ event (bytes "long") ∷ []) ∷ []

abbrev longer_blocked_logs : Table (List Event)
longer_blocked_logs =
    (bytes "run_1", event (bytes "a") ∷ event (bytes "long") ∷ event (bytes "b") ∷ []) ∷ []

long_is_not_taken : takes (event (bytes "long")) ≡ false
unfolding bytes
long_is_not_taken = refl

blocked_found :
    lookup (bytes "run_1") blocked_logs
    ≡ some ((event (bytes "a") ∷ []) ++ (event (bytes "long") ∷ []))
unfolding lookup bytes text_beq
blocked_found = refl

longer_blocked_found :
    lookup (bytes "run_1") longer_blocked_logs
    ≡ some ((event (bytes "a") ∷ []) ++ (event (bytes "long") ∷ (event (bytes "b") ∷ [])))
unfolding lookup bytes text_beq
longer_blocked_found = refl

list_events_by_run-not_taken_example :
    list_events_by_run healthy takes (bytes "run_1") longer_blocked_logs
    ≡ list_events_by_run healthy takes (bytes "run_1") blocked_logs
list_events_by_run-not_taken_example =
    list_events_by_run-not_taken healthy takes (bytes "run_1") (event (bytes "a") ∷ [])
      (event (bytes "b") ∷ []) (event (bytes "long")) blocked_logs longer_blocked_logs
      long_is_not_taken blocked_found longer_blocked_found

-- Two subscribers of one run and an event for it.
abbrev hub : Hub
hub = emit (event (bytes "a")) (subscribe (bytes "run_1") (subscribe (bytes "*") new_hub).0).0

hub-IsReachable : IsReachable hub
hub-IsReachable =
    emitted (event (bytes "a")) (subscribed (bytes "run_1") (subscribed (bytes "*") created))

IsReachable-IsOnce_example : IsBounded hub × IsOnce hub
IsReachable-IsOnce_example = IsReachable-IsOnce hub-IsReachable

cancel-subscribe_example :
    (cancel
      (bytes "run_1")
      (subscribe (bytes "run_1") hub).1
      (subscribe (bytes "run_1") hub).0).subscribers
    ≡ hub.subscribers
cancel-subscribe_example = cancel-subscribe (bytes "run_1") hub hub-IsReachable

run_is_not_all : bytes "run_1" ≢ bytes "*"
unfolding bytes
run_is_not_all e = ground arith

emit-subscribers_of_example :
    subscribers_of (bytes "run_1") (emit (event (bytes "b")) hub).subscribers ≡ (
      if bytes "run_1" == bytes "run_1"
      then offer_all (event (bytes "b")) (subscribers_of (bytes "run_1") hub.subscribers)
      else subscribers_of (bytes "run_1") hub.subscribers)
emit-subscribers_of_example =
    emit-subscribers_of (event (bytes "b")) hub (bytes "run_1") run_is_not_all

emit-subscribers_of_all_example :
    subscribers_of (bytes "*") (emit (event (bytes "b")) hub).subscribers
    ≡ offer_all (event (bytes "b")) (subscribers_of (bytes "*") hub.subscribers)
emit-subscribers_of_all_example = emit-subscribers_of_all (event (bytes "b")) hub run_is_not_all

abbrev chunks : List (Text × Text)
chunks =
    (bytes "stdout", bytes "abc")
    ∷ (bytes "stderr", bytes "x")
    ∷ (bytes "stdout", bytes "defgh")
    ∷ []

passed-IsBounded_example :
    ops_terminator.Agent.Stream.Prefix.IsBounded 5
      (bytes "stdout")
      0
      (given (bytes "stdout") chunks)
      (passed 5 (bytes "stdout") chunks [])
passed-IsBounded_example = passed-IsBounded 5 (bytes "stdout") chunks

abbrev settings : RuntimeSettings
settings = record default_runtime_settings {
  max_agent_steps = negsuc 4;
  tool_result_tail_chars = pos 0;
}

abbrev short_settings : RuntimeSettings
short_settings = record default_runtime_settings {
  max_agent_steps = pos 3;
  tool_result_tail_chars = pos 0;
}

short_settings-IsUsable : IsUsable short_settings
short_settings-IsUsable = record {
  steps = refl;
  soft_limit = refl;
  trigger = refl;
  reserve = refl;
  recent = refl;
  ledger = refl;
  ttl = refl;
  result_max = refl;
  result_head = refl;
  result_tail = refl;
  sops = refl;
}

normalize_runtime_settings_lem_example :
    IsUsable (normalize_runtime_settings settings)
    × (normalize_runtime_settings short_settings ≡ short_settings)
normalize_runtime_settings_lem_example =
    normalize_runtime_settings_lem settings short_settings short_settings-IsUsable
