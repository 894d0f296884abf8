-- ===== src/Bridge/Delivery.antt =====
-- `send`, `result` and `broadcast` of internal/usecase/bridge/usecase.go. They change the trace only.
use Prim.Native.String.{compare}
use text.Mathlib.Text.{is_le}
use service_backend.Prelude.{
  String, Bool, false, not, ◌&&◌, ◌==◌, Option, none, some, List, [], ◌∷◌, if◌then◌else◌,
}
use service_backend.Prelude.Map
use service_backend.Prelude.Map.{Map}
use service_backend.Access.Context.{can_write}
use service_backend.Bridge.{
  BridgeAccess, BridgeConfigurator, BridgeClient, BridgeMessage, Payload, configurator_list,
  client_list, Participant, Effect, sent,
}

abbrev pub Trace : Type 0
Trace = List Effect

abbrev pub message : String → Payload → BridgeMessage
message kind body = record {
  kind = kind;
  id = "";
  session_id = "";
  target_id = "";
  identity = "";
  expected_hash = "";
  accepted = false;
  body = body;
  error = "";
}

-- delivery.Send
abbrev pub deliver : String → BridgeMessage → Trace → Trace
deliver id m trace = sent id m ∷ trace

-- send
abbrev pub send : String → String → Payload → Trace → Trace
send id kind body trace = deliver id (message kind body) trace

-- result
abbrev pub result : String → String → Payload → String → Trace → Trace
result id request_id body reason trace =
    deliver id (record (message "result" body) { id = request_id; error = reason }) trace

abbrev role_in : Option BridgeAccess → String
role_in none = ""
role_in (some a) = a.role

abbrev name_in : Option BridgeAccess → String
name_in none = ""
name_in (some a) = a.display_name

-- canDebug
unfoldable pub can_debug : Participant → String → Bool
can_debug p workspace =
    p.debug && p.role == "configurator" && can_write (role_in (Map.get p.workspaces workspace))

insert_configurator : BridgeConfigurator → List BridgeConfigurator → List BridgeConfigurator
insert_configurator c [] = c ∷ []
insert_configurator c (d ∷ ds) =
    let rest = insert_configurator c ds in
    if is_le (compare c.instance_id d.instance_id) then c ∷ d ∷ ds else d ∷ rest

insert_client : BridgeClient → List BridgeClient → List BridgeClient
insert_client c [] = c ∷ []
insert_client c (d ∷ ds) =
    let rest = insert_client c ds in
    if is_le (compare c.instance_id d.instance_id) then c ∷ d ∷ ds else d ∷ rest

-- the first loop of broadcast and the two sorts by instance
pub configurators_of : Map Participant → List BridgeConfigurator
unfolding insert_configurator
configurators_of [] = []
configurators_of ((k, p) ∷ ps) =
    let rest = configurators_of ps in
    if p.role == "configurator"
    then insert_configurator
        (record {
          workspace_display_name = p.workspace_display_name;
          instance_id = p.id;
          user_id = p.actor.id;
          display_name = p.actor.display_name;
          label = p.label;
        })
        rest
    else rest

pub clients_of : Map Participant → List BridgeClient
unfolding insert_client
clients_of [] = []
clients_of ((k, p) ∷ ps) =
    let rest = clients_of ps in
    if not (p.role == "configurator") && p.debug
    then insert_client
        (record {
          workspace_identity = p.workspace;
          workspace_display_name = "";
          instance_id = p.id;
          label = p.label;
        })
        rest
    else rest

-- the clients that a configurator may debug, under the names that it sees
pub visible_to : Participant → List BridgeClient → List BridgeClient
unfolding can_debug
visible_to p [] = []
visible_to p (c ∷ cs) =
    let rest = visible_to p cs in
    if can_debug p c.workspace_identity
    then record c { workspace_display_name = name_in (Map.get p.workspaces c.workspace_identity) }
      ∷ rest
    else rest

-- the second loop of broadcast
announce : String → List BridgeConfigurator → List BridgeClient → Map Participant → Trace → Trace
unfolding visible_to
announce workspace configurators clients [] trace = trace
announce workspace configurators clients ((k, p) ∷ ps) trace =
    announce workspace configurators clients ps (
      if p.role == "configurator"
      then (let told = send p.id "configurators" (configurator_list configurators) trace in
          if not p.all_workspaces && not (p.workspace == workspace)
          then told
          else send p.id "clients" (client_list (visible_to p clients)) told)
      else trace)

-- broadcast
pub broadcast : String → Map Participant → Trace → Trace
unfolding announce configurators_of clients_of
broadcast workspace peers trace =
    announce workspace (configurators_of peers) (clients_of peers) peers trace
