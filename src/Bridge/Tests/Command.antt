-- ===== src/Bridge/Tests/Command.antt =====
-- The run goes on: the client accepts the session and a command goes through it; another participant
-- joins.
use service_backend.Prelude.{◌*◌, ◌≡◌, refl, true}
use service_backend.Prelude.Map
use service_backend.Errors.{ok}
use service_backend.Bridge.{second, BridgeMessage, State}
use service_backend.Bridge.Delivery.{can_debug}
use service_backend.Bridge.Sessions.{expire, end_each, request_session, client_busy, accept_session}
use service_backend.Bridge.Exchange.{request_command, pending_of, is_hash, valid_payload}
use service_backend.Bridge.Members.{competitors, register}
use service_backend.Bridge.Handle.{operate, perform, operation_of, handle}
use service_backend.Bridge.Expiry.{IsConsistent}
use service_backend.Bridge.Steps.{initial, Reach, here, after, registers, Reach-IsConsistent}
use service_backend.Bridge.Calls.{handle-IsConsistent}
use service_backend.Bridge.Grants.{IsCommandable, request_command-IsCommandable}
use service_backend.Bridge.Tests.{
  client, configurator, asker, request, port, joined, requested, unused, unchanged_role,
}

abbrev accepting : BridgeMessage
accepting = record request { kind = "acceptSession"; id = ""; session_id = "s1"; accepted = true }

abbrev begun : State
begun = (operate port "c1" accepting "" (12 * second) requested).1

abbrev snapshot : BridgeMessage
snapshot = record request { kind = "getSnapshot"; id = "q1"; session_id = "s1" }

abbrev asked : State
asked = (request_command port asker snapshot "k1" (13 * second) begun).1

is_asked : request_command port asker snapshot "k1" (13 * second) begun ≡ (ok tt, asked)
unfolding initial register competitors operate perform operation_of expire end_each Map.get Map.put
    Map.delete Map.retain can_debug request_session client_busy accept_session request_command
    pending_of is_hash valid_payload
is_asked = refl

request_command-IsCommandable_example :
    IsCommandable port asker snapshot "k1" (13 * second) begun asked
request_command-IsCommandable_example =
    request_command-IsCommandable port asker snapshot "k1" (13 * second) begun asked is_asked

two_joined : Reach initial joined
two_joined =
    after _ _ _ (after _ _ _ (here initial) (registers client initial)) (registers configurator _)

handle-IsConsistent_example :
    IsConsistent (handle unchanged_role port "p1" request "s1" (10 * second) joined).1
handle-IsConsistent_example =
    handle-IsConsistent unchanged_role port "p1" request "s1" (10 * second) joined
      (Reach-IsConsistent joined two_joined) unused
