-- ===== src/Bridge/Tests.antt =====
-- A run of the bridge: a client and a configurator join, and the configurator asks for a session.
mod Command
use service_backend.Prelude.{◌*◌, ◌<◌, String, ◌≡◌, refl, true, false, Option, none, some, [], ◌∷◌}
use service_backend.Prelude.Map
use service_backend.Prelude.Map.{Map}
use service_backend.Errors.{ok}
use service_backend.Entities.{Actor, Workspace}
use service_backend.Bridge.{
  second, absent, BridgeAccess, BridgePrincipal, BridgeMessage, Participant, Session, State, Port,
}
use service_backend.Bridge.Delivery.{can_debug}
use service_backend.Bridge.Sessions.{expire, end, end_each, request_session, client_busy}
use service_backend.Bridge.Members.{
  with_authorization, competitors, register, check, refresh, leave,
}
use service_backend.Bridge.Directory.{Directory, Authorization, permissions_of, authorize}
use service_backend.Bridge.Handle.{operate, perform, operation_of}
use service_backend.Bridge.Expiry.{IsConsistent, expire_fresh}
use service_backend.Bridge.Revocation.{takes_part, leave_clean, check_revokes}
use service_backend.Bridge.Steps.{
  registers, operates, Reach, here, after, initial, Reach-IsConsistent,
}

abbrev ann : Actor
ann = record { id = "u1"; username = "ann"; display_name = "Ann" }

abbrev principal : BridgePrincipal
principal = record { user_id = "u1"; session_id = "login"; expires_at = 3000 * second }

abbrev editor : BridgeAccess
editor = record { role = "editor"; display_name = "Main" }

abbrev client : Participant
client = record {
  all_workspaces = false;
  workspaces = [];
  id = "c1";
  role = "client";
  workspace = "main";
  label = "app";
  workspace_display_name = "";
  principal = principal;
  actor = ann;
  debug = true;
  access_role = "";
  last_request = 0;
}

abbrev configurator : Participant
configurator = record {
  all_workspaces = false;
  workspaces = ("w1", editor) ∷ ("main", editor) ∷ [];
  id = "p1";
  role = "configurator";
  workspace = "main";
  label = "browser";
  workspace_display_name = "Main";
  principal = principal;
  actor = ann;
  debug = true;
  access_role = "editor";
  last_request = 0;
}

abbrev request : BridgeMessage
request = record {
  kind = "requestSession";
  id = "r1";
  session_id = "";
  target_id = "c1";
  identity = "";
  expected_hash = "";
  accepted = false;
  body = absent;
  error = "";
}

abbrev port : Port
port = record { accepts = λ trace id m. true; valid_json = λ s. true }

abbrev joined : State
joined = (register configurator (register client initial).1).1

abbrev requested : State
requested = (operate port "p1" request "s1" (10 * second) joined).1

abbrev client_of : Option Session → String
client_of none = ""
client_of (some s) = s.client_id

-- the session is there, between the two participants
requested_session : client_of (Map.get requested.sessions "s1") ≡ "c1"
unfolding initial register competitors operate perform operation_of expire end_each Map.get Map.put
    Map.delete Map.retain can_debug request_session client_busy
requested_session = refl

unused : Map.get joined.sessions "s1" ≡ none
unfolding initial register competitors Map.get Map.put Map.delete
unused = refl

run : Reach initial requested
run =
    after _ _ _
      (after _ _ _ (after _ _ _ (here initial) (registers client initial))
        (registers configurator _))
      (operates port "p1" request "s1" (10 * second) joined unused)

Reach-IsConsistent_example : IsConsistent requested
Reach-IsConsistent_example = Reach-IsConsistent requested run

abbrev session : Session
session = record {
  info = record { session_id = "s1"; client_id = "c1"; configurator_id = "p1" };
  workspace = "main";
  request_id = "r1";
  active = false;
  deadline = 55 * second;
}

still_open : Map.get (expire (40 * second) requested).sessions "s1" ≡ some session
unfolding initial register competitors operate perform operation_of expire end_each Map.get Map.put
    Map.delete Map.retain can_debug request_session client_busy
still_open = refl

expire_fresh_example :
    (40 * second < 55 * second) × (Map.get requested.sessions "s1" ≡ some session)
expire_fresh_example = expire_fresh (40 * second) requested "s1" session still_open

abbrev other_client : Participant
other_client = record client { id = "c2" }

abbrev three : State
three = (register other_client requested).1

left_open : Map.get (leave "c2" three).sessions "s1" ≡ some session
unfolding initial register competitors leave operate perform operation_of expire end_each Map.get
    Map.put Map.delete Map.retain can_debug request_session client_busy
left_open = refl

leave_clean_example :
    (Map.get (leave "c2" three).peers "c2" ≡ none)
    × (takes_part "c2" session ≡ false)
    × (Map.get three.sessions "s1" ≡ some session)
leave_clean_example =
    leave_clean "c2" three "s1" session
      (Reach-IsConsistent three (after _ _ _ run (registers other_client requested))) left_open

-- the database after the user's role was narrowed to a viewer's
abbrev main : Workspace
main = record {
  id = "w1";
  identity = "main";
  display_name = "Main";
  active = true;
  deleted_at = none;
}

abbrev narrowed : Directory
narrowed = record {
  bridge_user = λ user session. ok ann;
  is_platform_admin = λ user. ok false;
  workspaces = record {
    get_workspace = λ identity. ok main;
    list_workspaces = λ user platform. ok (main ∷ []);
    workspace_role = λ w user platform. ok "viewer";
    list_deleted_workspaces = λ user platform. ok [];
    deleted_workspace_role = λ w user platform. ok "";
  };
}

abbrev asker : Participant
asker = record configurator { last_request = 10 * second }

found : Map.get requested.peers "p1" ≡ some asker
unfolding initial register competitors operate perform operation_of expire end_each Map.get Map.put
    Map.delete Map.retain can_debug request_session client_busy
found = refl

abbrev unchanged_role : Directory
unchanged_role = record narrowed {
  workspaces = record {
    get_workspace = λ identity. ok main;
    list_workspaces = λ user platform. ok (main ∷ []);
    workspace_role = λ w user platform. ok "editor";
    list_deleted_workspaces = λ user platform. ok [];
    deleted_workspace_role = λ w user platform. ok "";
  };
}

abbrev authorization : Authorization
authorization = record {
  actor = ann;
  role = "editor";
  workspace_name = "Main";
  permissions = ("w1", editor) ∷ ("main", editor) ∷ [];
}

reauthorized : authorize unchanged_role (11 * second) asker ≡ ok authorization
unfolding authorize permissions_of Map.get Map.put Map.delete
reauthorized = refl

checked : Map.get (check unchanged_role (11 * second) "p1" requested).1.sessions "s1" ≡ some session
unfolding initial register competitors check refresh authorize permissions_of operate perform
    operation_of expire end_each Map.get Map.put Map.delete Map.retain can_debug request_session
    client_busy
checked = refl

check_revokes_example :
    ((check unchanged_role (11 * second) "p1" requested).0 ≡ true)
    × (can_debug (with_authorization asker authorization) "main" ≡ true)
check_revokes_example =
    check_revokes unchanged_role (11 * second) "p1" asker authorization requested "s1" session found
      refl reauthorized checked refl

-- a narrower role ends the session
closed_by_check :
    client_of (Map.get (check narrowed (11 * second) "p1" requested).1.sessions "s1") ≡ ""
unfolding initial register competitors check refresh authorize permissions_of operate perform
    operation_of expire end_each Map.get Map.put Map.delete Map.retain can_debug request_session
    client_busy end
closed_by_check = refl
