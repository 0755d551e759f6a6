-- ===== src/Api.antt =====
-- internal/api/server.go: the state of the server, its requests and what they leave. net/http and
-- encoding/json stand in the request: what they make of its address and of its body.
pub mod Guard
pub mod Handlers
pub mod Serve
pub mod Quiet
pub mod Laws
pub mod Tests
use olsr_go.Base.{ℕ, Bool, Option, List, [], Text}
use olsr_go.Base.Int.{ℤ}
use olsr_go.Base.Map.{GoMap}
use olsr_go.EventBus.{Event}
use olsr_go.Net.{Time}
use olsr_go.Neighbor.{NeighborTuple, LinkTuple}
use olsr_go.Topology.{TopologyTuple}
use olsr_go.Hna.{HnaEntry}
use olsr_go.Molsr.{SourceClaim, ConfirmParentEntry, MulticastForwardingEntry}
use olsr_go.Spf.{Route}
use olsr_go.Daemon.{Daemon}
use olsr_go.Daemon.Install.{InterfaceInfo}

pub data Method : Type 0 where
  get post delete_method other_method : Method

pub record SourceClaimPayload : Type 0 where
  pub source : Text
  pub group : Text
  pub duration_seconds : ℤ

pub record ConfirmParentPayload : Type 0 where
  pub source : Text
  pub group : Text
  pub parent : Text
  pub child : Text
  pub duration_seconds : ℤ

-- `host` is what net.SplitHostPort makes of the address, empty for an error. The payloads are what the
-- JSON decoder makes of the body as a value of the type, `none` for an error.
pub record Request : Type 0 where
  pub method : Method
  pub method_text : Text
  pub path : Text
  pub remote_addr : Text
  pub host : Text
  pub authorization : Text
  pub audit_user : Text
  pub hna_payload : Option Text
  pub claim_payload : Option SourceClaimPayload
  pub parent_payload : Option ConfirmParentPayload

pub record ClientBucket (C : Type 0) : Type 0 where
  pub tokens : C
  pub last_update : Time

-- The managers are the daemon's own. The others are what the monitor reports, with IsUp, whether the
-- ZAPI client is connected (`none` without one), and whether there is an SPF engine.
pub record ApiServer (C : Type 0) : Type 0 where
  pub daemon : Daemon
  pub rate_limits : GoMap Text (ClientBucket C)
  pub monitor : List (InterfaceInfo × Bool)
  pub zapi_connected : Option Bool
  pub spf_engine : Bool

-- The contents of an answer.
pub data Body : Type 0 where
  plain_text error_text message : Text → Body
  readiness : Bool → Bool → Bool → Body
  neighbors : List NeighborTuple → List LinkTuple → List Text → List Text → Body
  topology : List TopologyTuple → GoMap Text (List Text) → Body
  routes : List Route → List MulticastForwardingEntry → Body
  interfaces : List (InterfaceInfo × Bool) → Body
  hna_entries : List HnaEntry → Body
  source_claims : List SourceClaim → Body
  confirm_parents : List ConfirmParentEntry → Body

pub record AuditEntry : Type 0 where
  pub client_ip : Text
  pub user : Text
  pub method_name : Text
  pub logged_path : Text

-- What a handler leaves. `subject` is the X-Audit-User header of the request in the end.
pub record Reply (C : Type 0) : Type 0 where
  pub server : ApiServer C
  pub status : ℕ
  pub body : Body
  pub events : List (Event Text)
  pub audit : List AuditEntry
  pub subject : Text

abbrev pub Handler : Type 0 → Type 0
Handler C = Request → ApiServer C → Reply C

-- jsonResponse and http.Error, of a handler that changes nothing.
abbrev pub answer : {C : Type 0} → ℕ → Body → Handler C
answer status body r s = record {
  server = s;
  status = status;
  body = body;
  events = [];
  audit = [];
  subject = r.audit_user;
}
