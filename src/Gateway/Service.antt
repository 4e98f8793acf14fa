-- ===== src/Gateway/Service.antt =====
-- The state of `Service` of internal/gateway/service.go, what it calls that is not modelled, and the
-- operations on the stores that its handlers share. The dashboard's cache is not modelled.
pub mod Frame
use ops_terminator.Base.{
  ℕ, suc, List, [], Option, none, some, Result, ok, err, if◌then◌else◌, ◌==◌, text_eq, nat_eq,
}
use ops_terminator.Base.Text.{Text, bytes}
use ops_terminator.Models.{Run, Event, AuditEntry, PayloadValue, new_id}
use ops_terminator.Models.Hosts.{Host}
use ops_terminator.Models.Automations.{AutomationRule}
use ops_terminator.Models.Sessions.{Session, Turn, OperatorProfile, KnowledgeItem}
use ops_terminator.Store.{
  Disk, StoreError, read_failed, write_failed, Table, get_object, save_object,
}
use ops_terminator.Store.Log.{append_event, append_audit}
use ops_terminator.Events.{Hub, emit}
use ops_terminator.Agent.Settings.{RuntimeSettings}

-- The tables of the store, its files, the hub, what the configuration says of the runtime and of
-- embeddings, and how often the clock has been read.
pub record World : Type 0 where
  pub hosts : Table Host
  pub sessions : Table Session
  pub turns : Table Turn
  pub runs : Table Run
  pub knowledge : Table KnowledgeItem
  pub automations : Table AutomationRule
  pub logs : Table (List Event)
  pub audit : List AuditEntry
  pub operator_profile : Option OperatorProfile
  pub settings : RuntimeSettings
  pub embedding_model : Text
  pub hub : Hub
  pub readings : ℕ

pub data GatewayError : Type 0 where
  store_error : StoreError → GatewayError
  host_not_found session_not_found run_not_found : Text → GatewayError
  automation_not_found unsupported_metric unsupported_operator unsupported_trigger_type :
      Text → GatewayError
  bypass_not_allowed name_required host_required metric_required operator_required id_required
        text_required :
      GatewayError
  session_belongs : Text → Text → Text → GatewayError
  host_invalid : Text → GatewayError
  outside_error : Text → GatewayError

-- An operation: the world after it, and its result or its error.
abbrev pub M {ℓ} : Type ℓ → Type ℓ
M A = World → World × Result GatewayError A

-- What follows a first operation.
unfoldable pub and_then {ℓ κ} :
    {A : Type ℓ} {B : Type κ}
    → (A → M B)
    → World × Result GatewayError A
    → World × Result GatewayError B
and_then f (w, ok a) = f a w
and_then f (w, err e) = (w, err e)

infixl 5 ◌>>=◌
unfoldable pub ◌>>=◌ {ℓ κ} : {A : Type ℓ} {B : Type κ} → M A → (A → M B) → M B
unfolding and_then
◌>>=◌ m f w = and_then f (m w)

abbrev pub return {ℓ} : {A : Type ℓ} → A → M A
return a w = (w, ok a)

abbrev pub fail {ℓ} : {A : Type ℓ} → GatewayError → M A
fail e w = (w, err e)

-- `_ = operation`.
unfoldable pub ignore {ℓ} : {A : Type ℓ} → M A → M (Unit {0})
ignore m w = ((m w).0, ok tt)

-- The result of a read of the store.
abbrev pub lift {ℓ} : {A : Type ℓ} → Result StoreError A → M A
lift (ok a) w = (w, ok a)
lift (err e) w = (w, err (store_error e))

-- The result of a write of the store, and where it is put.
abbrev pub commit {ℓ} :
    {T : Type ℓ}
    → (T → World)
    → World
    → Result StoreError T
    → World × Result GatewayError (Unit {0})
commit put w (ok t) = (put t, ok tt)
commit put w (err e) = (w, err (store_error e))

-- The value that was found, or an error.
abbrev pub found_or {ℓ} : {A : Type ℓ} → GatewayError → Option A → M A
found_or e none = fail e
found_or e (some a) = return a

module _ (clock : ℕ → ℕ) where
  -- `time.Now().UTC()`.
  abbrev pub now : M ℕ
  now w = (record w { readings = suc w.readings }, ok (clock w.readings))

  -- `models.NewID(prefix)`.
  abbrev pub fresh_id : Text → M Text
  fresh_id prefix w =
      (record w { readings = suc w.readings }, ok (new_id prefix (clock w.readings)))

module _ (disk : Disk) where
  unfoldable pub get_host : Text → M (Option Host)
  get_host id w = lift (get_object disk (bytes "hosts") id w.hosts) w

  unfoldable pub get_session : Text → M (Option Session)
  get_session id w = lift (get_object disk (bytes "sessions") id w.sessions) w

  unfoldable pub get_turn : Text → M (Option Turn)
  get_turn id w = lift (get_object disk (bytes "turns") id w.turns) w

  unfoldable pub get_run : Text → M (Option Run)
  get_run id w = lift (get_object disk (bytes "runs") id w.runs) w

  unfoldable pub save_host : Host → M (Unit {0})
  save_host h w =
      commit (λ t. record w { hosts = t }) w (save_object disk (bytes "hosts") h.id h w.hosts)

  unfoldable pub save_session : Session → M (Unit {0})
  save_session s w =
      commit (λ t. record w { sessions = t }) w
        (save_object disk (bytes "sessions") s.id s w.sessions)

  unfoldable pub save_turn : Turn → M (Unit {0})
  save_turn t w =
      commit (λ ts. record w { turns = ts }) w (save_object disk (bytes "turns") t.id t w.turns)

  unfoldable pub save_run : Run → M (Unit {0})
  save_run r w =
      commit (λ t. record w { runs = t }) w (save_object disk (bytes "runs") r.id r w.runs)

  unfoldable pub save_knowledge : KnowledgeItem → M (Unit {0})
  save_knowledge k w =
      commit (λ t. record w { knowledge = t }) w
        (save_object disk (bytes "knowledge") k.id k w.knowledge)

  unfoldable pub get_automation : Text → M (Option AutomationRule)
  get_automation id w = lift (get_object disk (bytes "automations") id w.automations) w

  unfoldable pub save_automation : AutomationRule → M (Unit {0})
  save_automation r w =
      commit (λ t. record w { automations = t }) w
        (save_object disk (bytes "automations") r.id r w.automations)

  -- `AppendAudit`.
  unfoldable pub audit_entry : AuditEntry → M (Unit {0})
  audit_entry entry w = commit (λ t. record w { audit = t }) w (append_audit disk entry w.audit)

  -- `GetOperatorProfile` and `SaveOperatorProfile`.
  unfoldable pub get_operator_profile : M (Option OperatorProfile)
  get_operator_profile w =
      if disk.readable [] (bytes "operator_profile.json")
      then (w, ok w.operator_profile)
      else elim w.operator_profile [
        | none ↦ (w, ok none)
        | some _ ↦ (w, err (store_error (read_failed [] (bytes "operator_profile.json"))))
      ]

  unfoldable pub save_operator_profile : OperatorProfile → M (Unit {0})
  save_operator_profile profile w =
      if disk.writable [] (bytes "operator_profile.json")
      then (record w { operator_profile = some profile }, ok tt)
      else (w, err (store_error (write_failed [] (bytes "operator_profile.json"))))

-- `RecordEvent` on an event with its time.
module _ (disk : Disk) where
  unfoldable pub record_timed : Event → M (Unit {0})
  record_timed event w =
      commit (λ t. record w { logs = t; hub = emit event w.hub }) w (append_event disk event w.logs)

module _ (clock : ℕ → ℕ) (disk : Disk) where
  -- `RecordEvent`.
  unfoldable pub record_event : Event → M (Unit {0})
  unfolding record_timed
  record_event event w =
      if event.timestamp == 0
      then record_timed disk (record event { timestamp = clock w.readings })
          (record w { readings = suc w.readings })
      else record_timed disk event w

  -- `_ = s.RecordEvent(models.Event{ID: models.NewID("event"), ...})`.
  unfoldable pub announce : Text → Text → Text → List (Text × PayloadValue) → ℕ → M (Unit {0})
  unfolding record_event
  announce run_id type_name message payload timestamp = ignore (do
    id ← fresh_id clock (bytes "event")
    record_event (record {
      id = id;
      run_id = run_id;
      type_name = type_name;
      message = message;
      payload = payload;
      timestamp = timestamp;
    }))

  -- The same, with the time read behind the id.
  unfoldable pub announce_now : Text → Text → Text → List (Text × PayloadValue) → M (Unit {0})
  unfolding record_event
  announce_now run_id type_name message payload = ignore (do
    id ← fresh_id clock (bytes "event")
    at ← now clock
    record_event (record {
      id = id;
      run_id = run_id;
      type_name = type_name;
      message = message;
      payload = payload;
      timestamp = at;
    }))
