-- ===== src/Api/Tests.antt =====
-- internal/api: the theorems at concrete requests.
use olsr_go.Base.{
  ℕ, ◌≡◌, refl, ◌⊎◌, Bool, true, false, Option, none, some, List, [], ◌==◌, Text, codes, text_eq,
  if◌then◌else◌,
}
use olsr_go.Base.Int.{pos, int_eq}
use olsr_go.Base.Map.{lookup}
use olsr_go.Net.{Duration}
use olsr_go.Config.{zero_config}
use olsr_go.Daemon.Run.{new_daemon}
use olsr_go.Api.{Method, post, Request, ApiServer, Reply, Handler, answer, error_text}
use olsr_go.Api.Handlers.{handle_hna}
use olsr_go.Api.Serve.{Clock, secured_handlers, serve}
use olsr_go.Api.Quiet.{IsWrite, Keeps}
use olsr_go.Api.Laws.{subject_in, serve_guards}
use olsr_go.Packet.Tests.{exact}

abbrev no_seconds : Duration → exact.Carrier
no_seconds d = exact.nought

-- Of all tokens only this one is accepted, as alice's.
abbrev only_alice : Text → Text → Option Text
only_alice token secret = if token == codes "t0k3n" then some (codes "alice") else none

abbrev no_others : Handler exact.Carrier
no_others r s = answer 404 (error_text (codes "404 page not found")) r s

abbrev noon : Clock
noon = record { made = pos 10; refill = pos 10; acted = pos 10 }

abbrev new_server : ApiServer exact.Carrier
new_server = record {
  daemon = new_daemon zero_config;
  rate_limits = [];
  monitor = [];
  zapi_connected = none;
  spf_engine = true;
}

-- It calls itself bob.
abbrev forged : Request
forged = record {
  method = post;
  method_text = codes "POST";
  path = codes "/api/v1/hna";
  remote_addr = codes "10.0.0.9:4000";
  host = codes "10.0.0.9";
  authorization = codes "Bearer t0k3n";
  audit_user = codes "bob";
  hna_payload = some (codes "192.168.4.0/24");
  claim_payload = none;
  parent_payload = none;
}

is_secured : lookup forged.path (secured_handlers {C = exact.Carrier} (pos 10)) ≡ some handle_hna
unfolding lookup olsr_go.Base.text_beq
is_secured = refl

guards_example :
    let reply = serve exact no_seconds only_alice no_others noon forged new_server in
    let subject = subject_in exact no_seconds only_alice forged new_server in
    (Keeps new_server.daemon reply
      ⊎ (IsWrite forged.method × ((sub : Text) × (subject ≡ some sub))))
    × (subject ≡ none → (reply.status ≡ 401) ⊎ (reply.status ≡ 429))
guards_example =
    serve_guards exact no_seconds only_alice no_others noon forged new_server handle_hna is_secured

created : (serve exact no_seconds only_alice no_others noon forged new_server).status ≡ 201
unfolding serve olsr_go.Base.text_beq olsr_go.Api.Guard.rate_limit olsr_go.Api.Guard.subject_of
    olsr_go.Net.Parse.parse_cidr
created = refl
