-- ===== src/Examples/HandlerRuns.antt =====
-- Runs of the handlers of hosts and of knowledge of internal/gateway/service.go.
use ops_terminator.Base.{◌≤◌, List, [], ◌∷◌, none, some, Result, ok, ◌≡◌, refl, All}
use ops_terminator.Base.Int.{pos}
use ops_terminator.Base.Text.{Text, bytes}
use ops_terminator.Models.Hosts.{Host}
use ops_terminator.Models.Sessions.{KnowledgeItem, host_mode_ssh}
use ops_terminator.Store.{lookup}
use ops_terminator.Gateway.Service.{World, GatewayError, save_host}
use ops_terminator.Gateway.Hosts.{
  normalize_host, validate_ssh, validate_host, fill_port, fill_host, upsert_normal, upsert_host,
}
use ops_terminator.Gateway.Hosts.Connectable.{IsConnectable, upsert_host-IsConnectable}
use ops_terminator.Gateway.Knowledge.{
  knowledge_kind_sop, knowledge_status_pending, knowledge_status_active, select_items, limit_of,
}
use ops_terminator.Gateway.Knowledge.Selected.{IsOffered, count_items, select_items-IsOffered}
use ops_terminator.Examples.GatewayRuns.{healthy, clock, world, local_host, run_create}

-- A host as it is sent, with blanks and without a port.
abbrev given : Host
given = record local_host {
  id = bytes " web1 ";
  display_name = [];
  mode = host_mode_ssh;
  address = bytes "10.0.0.2";
  user = bytes "ops";
  password_env = bytes "WEB1";
  port = pos 0;
}

abbrev filled : Host
filled = record given {
  id = bytes "web1";
  display_name = bytes "web1";
  port = pos 22;
  created_at = 1;
  updated_at = 1;
}

abbrev saved : World × Result GatewayError Host
saved = upsert_host clock healthy given world

saved_ok : saved ≡ (saved.0, ok filled)
unfolding run_create normalize_host validate_ssh validate_host fill_port fill_host upsert_normal
    upsert_host save_host
saved_ok = refl

upsert_host-IsConnectable_example :
    IsConnectable filled × (lookup (bytes "web1") saved.0.hosts ≡ some filled)
upsert_host-IsConnectable_example = upsert_host-IsConnectable clock healthy given world saved_ok

abbrev item : Text → Text → KnowledgeItem
item kind status = record {
  id = bytes "k";
  kind = kind;
  status = status;
  scope = bytes "h";
  title = bytes "disk full";
  body = bytes "clean /var/log";
  source_run_id = [];
  source_turn_id = [];
  source_event_id = [];
  source_sop_id = [];
  confidence = 0;
  embedding = 1 ∷ [];
  embedding_model = [];
  embedding_status = [];
  embedding_error = [];
  tags = [];
  created_at = 1;
  updated_at = 1;
  approved_at = none;
  approved_by = [];
}

abbrev items : List KnowledgeItem
items =
    item (bytes "memory") knowledge_status_pending
    ∷ item (bytes "memory") knowledge_status_active
    ∷ item knowledge_kind_sop knowledge_status_pending
    ∷ []

-- Without letters to lower and with the whole input as a token.
abbrev selected : List KnowledgeItem
selected = select_items (λ t. t) (λ t. t ∷ []) (bytes "disk") (pos 5) items

select_items-IsOffered_example : All IsOffered selected × (count_items selected ≤ limit_of (pos 5))
select_items-IsOffered_example =
    select_items-IsOffered (λ t. t) (λ t. t ∷ []) (bytes "disk") (pos 5) items
