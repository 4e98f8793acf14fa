-- ===== src/Gateway/Hosts.antt =====
-- The handlers of hosts, of the mode of a session and of the operator's profile, of
-- internal/gateway/service.go.
pub mod Connectable
use ops_terminator.Base.{
  ℕ, Bool, ◌&&◌, [], ◌∷◌, Option, none, some, ok, err, ◌==◌, text_eq, if◌then◌else◌,
}
use ops_terminator.Base.Int.{pos, is_zero, is_not_negative}
use ops_terminator.Base.Text.{Text, bytes, trim_space, first_non_empty}
use ops_terminator.Models.{text, flag}
use ops_terminator.Models.Hosts.{Host}
use ops_terminator.Models.Sessions.{Session, OperatorProfile, host_mode_local, host_mode_ssh}
use ops_terminator.Store.{Disk}
use ops_terminator.Gateway.Service.{
  ◌>>=◌, GatewayError, host_invalid, session_not_found, M, return, fail, ignore, found_or, now,
  fresh_id, get_host, save_host, get_session, save_session, save_operator_profile, audit_entry,
}
use ops_terminator.Gateway.Runs.{normalize_operator_profile}

-- `normalizeHost`.
unfoldable pub normalize_host : Host → Host
normalize_host h = record h {
  id = trim_space h.id;
  display_name = trim_space h.display_name;
  mode = trim_space h.mode;
  address = trim_space h.address;
  user = trim_space h.user;
  password_env = trim_space h.password_env;
}

-- The case of SSH of `validateHost`.
unfoldable pub validate_ssh : Host → Option GatewayError
validate_ssh h =
    if h.address == []
    then some (host_invalid (bytes "ssh host requires address"))
    else if h.user == []
    then some (host_invalid (bytes "ssh host requires user"))
    else if h.password_env == []
    then some (host_invalid (bytes "ssh host requires password_env"))
    else if is_not_negative h.port
    then none
    else some (host_invalid (bytes "ssh port must be positive"))

-- `validateHost`.
unfoldable pub validate_host : Host → Option GatewayError
unfolding validate_ssh
validate_host h =
    if h.id == []
    then some (host_invalid (bytes "host id is required"))
    else if h.mode == []
    then none
    else if h.mode == host_mode_local
    then none
    else if h.mode == host_mode_ssh
    then validate_ssh h
    else some (host_invalid h.mode)

abbrev pub valid_host : Option GatewayError → M (Unit {0})
valid_host none = return tt
valid_host (some e) = fail e

-- `existing.CreatedAt`, or the time.
abbrev pub created_at_of : ℕ → Option Host → ℕ
created_at_of at none = at
created_at_of at (some existing) = existing.created_at

-- The defaults of `UpsertHost`.
unfoldable pub fill_port : Host → Host
fill_port h = if h.mode == host_mode_ssh && is_zero h.port then record h { port = pos 22 } else h

unfoldable pub fill_host : ℕ → Option Host → Host → Host
unfolding fill_port
fill_host at existing h = fill_port (record h {
  created_at = created_at_of at existing;
  updated_at = at;
  display_name = if h.display_name == [] then h.id else h.display_name;
  mode = if h.mode == [] then host_mode_local else h.mode;
})

module _ (clock : ℕ → ℕ) (disk : Disk) where
  -- `UpsertHost`, once the host is normalised.
  unfoldable pub upsert_normal : Host → M Host
  unfolding validate_host fill_host
  upsert_normal h = do
    _ ← valid_host (validate_host h)
    at ← now clock
    existing ← get_host disk h.id
    _ ← save_host disk (fill_host at existing h)
    return (fill_host at existing h)

  -- `UpsertHost`.
  unfoldable pub upsert_host : Host → M Host
  unfolding upsert_normal normalize_host
  upsert_host h = upsert_normal (normalize_host h)

  -- What follows `GetHost("local")`.
  unfoldable pub bootstrap_found : Option Host → M (Unit {0})
  bootstrap_found (some _) = return tt
  bootstrap_found none = do
    at ← now clock
    save_host disk (record {
      id = bytes "local";
      display_name = bytes "本机";
      mode = host_mode_local;
      address = [];
      port = pos 0;
      user = [];
      password_env = [];
      tags = bytes "bootstrap" ∷ bytes "local" ∷ [];
      labels = [];
      created_at = at;
      updated_at = at;
    })

  -- `EnsureBootstrapState`.
  unfoldable pub ensure_bootstrap_state : M (Unit {0})
  unfolding bootstrap_found
  ensure_bootstrap_state = do found ← get_host disk (bytes "local"); bootstrap_found found

  -- `UpdateSessionMode`.
  unfoldable pub update_session_mode : Text → Bool → M Session
  update_session_mode id bypass = do
    found ← get_session disk id
    session ← found_or (session_not_found id) found
    at ← now clock
    _ ← save_session disk (record session { bypass_approvals = bypass; updated_at = at })
    return (record session { bypass_approvals = bypass; updated_at = at })

  -- `UpdateOperatorProfile`.
  unfoldable pub update_operator_profile : OperatorProfile → Text → M OperatorProfile
  update_operator_profile given actor = do
    at ← now clock
    let profile : OperatorProfile = record (normalize_operator_profile given) { updated_at = at }
    _ ← save_operator_profile disk profile
    id ← fresh_id clock (bytes "audit")
    _ ← ignore (
        audit_entry disk (record {
          id = id;
          run_id = [];
          kind = bytes "operator_profile_updated";
          summary = bytes "operator profile updated";
          payload =
              (bytes "actor", text (first_non_empty (actor ∷ bytes "api" ∷ [])))
              ∷ (bytes "approval_strictness", text profile.approval_strictness)
              ∷ (bytes "prefer_read_only_first", flag profile.prefer_read_only_first)
              ∷ [];
          created_at = at;
        }))
    return profile
