-- ===== src/Api/Serve.antt =====
-- internal/api/server.go: the handlers that Start registers, and the answer to a request.
use olsr_go.Base.{Option, none, some, [], ◌∷◌, ◌==◌, if◌then◌else◌, Text, codes, text_eq}
use olsr_go.Base.Map.{GoMap, lookup}
use olsr_go.Net.{Time, Duration}
use olsr_go.Packet.TimeVal.{Float64}
use olsr_go.Api.{Handler}
use olsr_go.Api.Guard.{audit_log, rate_limit, jwt_auth}
use olsr_go.Api.Handlers.{
  handle_healthz, handle_readyz, handle_neighbors, handle_topology, handle_routes,
  handle_interfaces, handle_hna, handle_source_claims, handle_confirm_parents,
}

-- The paths below /api/v1; `now` is the time that their handlers read.
abbrev pub secured_handlers : {C : Type 0} → Time → GoMap Text (Handler C)
secured_handlers now =
    (codes "/api/v1/neighbors", handle_neighbors now)
    ∷ (codes "/api/v1/topology", handle_topology)
    ∷ (codes "/api/v1/routes", handle_routes)
    ∷ (codes "/api/v1/interfaces", handle_interfaces)
    ∷ (codes "/api/v1/hna", handle_hna)
    ∷ (codes "/api/v1/molsr/source-claims", handle_source_claims now)
    ∷ (codes "/api/v1/molsr/confirm-parents", handle_confirm_parents now)
    ∷ []

-- What a request reads of the clock: for a new bucket, for the refill, and in its handler.
pub record Clock : Type 0 where
  pub made : Time
  pub refill : Time
  pub acted : Time

-- `others` answers to every other path: the handler of the metrics, and that of an unknown path.
module _ (F : Float64) (seconds : Duration → F.Carrier) (parse_token : Text → Text → Option Text)
    (others : Handler F.Carrier) where
  abbrev pub public_handler : Handler F.Carrier
  public_handler r s =
      if r.path == codes "/healthz"
      then handle_healthz r s
      else if r.path == codes "/readyz"
      then handle_readyz r s
      else others r s

  abbrev pub secured : Clock → Handler F.Carrier → Handler F.Carrier
  secured clock next =
      audit_log (rate_limit F seconds clock.made clock.refill (jwt_auth parse_token next))

  unfoldable pub serve : Clock → Handler F.Carrier
  unfolding lookup
  serve clock r s = elim (lookup r.path (secured_handlers clock.acted)) [
    | none ↦ public_handler r s
    | some next ↦ secured clock next r s
  ]
