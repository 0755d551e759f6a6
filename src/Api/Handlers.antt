-- ===== src/Api/Handlers.antt =====
-- internal/api/handlers.go: the handlers, which read and change the daemon's managers.
use olsr_go.Base.{
  ℕ, ◌*◌, ◌-◌, ◌%◌, ◌^◌, Bool, true, false, not, ◌||◌, ◌&&◌, Option, none, some, List, [], ◌∷◌, ltb,
  if◌then◌else◌, Text, codes,
}
use olsr_go.Base.Int.{ℤ, pos, negsuc}
use olsr_go.EventBus.{Event}
use olsr_go.Net.{Time, Duration}
use olsr_go.Net.Parse.{parse_cidr, parse_ip}
use olsr_go.Net.Cidr.{IpNet}
use olsr_go.Neighbor.Aging.{get_neighbors, get_links, get_mpr_set, get_mpr_selectors}
use olsr_go.Topology.{get_topology, get_mid_map}
use olsr_go.Hna.{HnaManager, add_local_hna, remove_local_hna, get_hna_entries}
use olsr_go.Molsr.{
  MolsrManager, add_local_source_claim, delete_local_source_claim, add_local_confirm_parent,
  delete_local_confirm_parent, get_source_claims, get_confirm_parents, get_active_mfc,
}
use olsr_go.Spf.{get_routes}
use olsr_go.Daemon.Install.{InterfaceInfo}
use olsr_go.Api.{
  Method, get, post, delete_method, other_method, SourceClaimPayload, ConfirmParentPayload, Body,
  plain_text, error_text, message, readiness, neighbors, topology, routes, interfaces, hna_entries,
  source_claims, confirm_parents, Handler, answer,
}

abbrev pub not_allowed : {C : Type 0} → Handler C
not_allowed r s = answer 405 (error_text (codes "Method Not Allowed")) r s

abbrev pub bad_request : {C : Type 0} → Text → Handler C
bad_request text r s = answer 400 (error_text text) r s

-- A handler of GET only.
abbrev pub get_only : {C : Type 0} → Method → Body → Handler C
get_only get body r s = answer 200 body r s
get_only _ body r s = not_allowed r s

abbrev pub handle_healthz : {C : Type 0} → Handler C
handle_healthz r s = answer 200 (plain_text (codes "OK")) r s

abbrev some_up : List (InterfaceInfo × Bool) → Bool
some_up [] = false
some_up ((iface, is_up) ∷ ifaces) = is_up || some_up ifaces

abbrev or_true : Option Bool → Bool
or_true none = true
or_true (some b) = b

abbrev pub handle_readyz : {C : Type 0} → Handler C
handle_readyz r s =
    let zapi_ok = or_true s.zapi_connected in
    let ifaces_ok = some_up s.monitor in
    if not zapi_ok || (not ifaces_ok || not s.spf_engine)
    then answer 503 (readiness zapi_ok s.spf_engine ifaces_ok) r s
    else answer 200 (message (codes "ready")) r s

-- `now` is what GetMPRSelectors reads.
abbrev pub handle_neighbors : {C : Type 0} → Time → Handler C
handle_neighbors now r s =
    let nm = s.daemon.neigh_mgr in
    get_only r.method
      (neighbors (get_neighbors nm) (get_links nm) (get_mpr_set nm) (get_mpr_selectors now nm)) r s

abbrev pub handle_topology : {C : Type 0} → Handler C
handle_topology r s =
    let tm = s.daemon.topo_mgr in
    get_only r.method (topology (get_topology tm) (get_mid_map tm)) r s

abbrev pub handle_routes : {C : Type 0} → Handler C
handle_routes r s =
    get_only r.method
      (routes (get_routes s.daemon.active_routes) (get_active_mfc s.daemon.molsr_mgr)) r s

abbrev pub handle_interfaces : {C : Type 0} → Handler C
handle_interfaces r s = get_only r.method (interfaces s.monitor) r s

abbrev hna_changed : {C : Type 0} → ℕ → Text → HnaManager × List (Event Text) → Handler C
hna_changed status text (hna, events) r s =
    let d = s.daemon in
    record (answer status (message text) r (record s { daemon = record d { hna_mgr = hna } })) {
      events = events;
    }

-- The prefix of the payload, and then the change of it.
abbrev pub with_prefix : {C : Type 0} → Option Text → (IpNet → Handler C) → Handler C
with_prefix none change r s = bad_request (codes "Bad Request") r s
with_prefix (some prefix) change r s = elim (parse_cidr prefix) [
  | none ↦ bad_request (codes "Invalid CIDR prefix") r s
  | some ip_net ↦ change ip_net r s
]

abbrev pub hna_by : {C : Type 0} → Method → Handler C
hna_by get r s = answer 200 (hna_entries (get_hna_entries s.daemon.hna_mgr)) r s
hna_by post r s =
    with_prefix r.hna_payload
      (λ n. hna_changed 201 (codes "HNA prefix registered") (add_local_hna n s.daemon.hna_mgr)) r s
hna_by delete_method r s =
    with_prefix r.hna_payload
      (λ n. hna_changed 200 (codes "HNA prefix deregistered") (remove_local_hna n s.daemon.hna_mgr))
      r s
hna_by other_method r s = not_allowed r s

abbrev pub handle_hna : {C : Type 0} → Handler C
handle_hna r s = hna_by r.method r s

-- An int64, from a number that may be too large for one.
abbrev pub wrap_int64 : ℕ → ℤ
wrap_int64 n =
    let low = n % 2 ^ 64 in if ltb low (2 ^ 63) then pos low else negsuc (2 ^ 64 - 1 - low)

-- A minute, unless there is a positive number of seconds; the product wraps around.
unfoldable pub claim_duration : ℤ → Duration
claim_duration (negsuc n) = pos 60_000_000_000
claim_duration (pos n) = if ltb 0 n then wrap_int64 (n * 1_000_000_000) else pos 60_000_000_000

abbrev molsr_changed : {C : Type 0} → ℕ → Text → MolsrManager × List (Event Text) → Handler C
molsr_changed status text (molsr, events) r s =
    let d = s.daemon in
    record (answer status (message text) r (record s { daemon = record d { molsr_mgr = molsr } })) {
      events = events;
    }

abbrev pub is_address : Text → Bool
is_address text = elim (parse_ip text) [ none ↦ false | some ip ↦ true ]

abbrev pub add_claim : {C : Type 0} → Time → Option SourceClaimPayload → Handler C
add_claim now none r s = bad_request (codes "Bad Request") r s
add_claim now (some p) r s =
    if is_address p.source && is_address p.group
    then molsr_changed 201 (codes "Source claim injected")
        (add_local_source_claim now p.source p.group (claim_duration p.duration_seconds)
          s.daemon.molsr_mgr)
        r s
    else bad_request (codes "Invalid IP address formats") r s

abbrev pub delete_claim : {C : Type 0} → Option SourceClaimPayload → Handler C
delete_claim none r s = bad_request (codes "Bad Request") r s
delete_claim (some p) r s =
    molsr_changed 200 (codes "Source claim deleted")
      (delete_local_source_claim p.source p.group s.daemon.molsr_mgr) r s

abbrev pub claims_by : {C : Type 0} → Time → Method → Handler C
claims_by now get r s = answer 200 (source_claims (get_source_claims s.daemon.molsr_mgr)) r s
claims_by now post r s = add_claim now r.claim_payload r s
claims_by now delete_method r s = delete_claim r.claim_payload r s
claims_by now other_method r s = not_allowed r s

abbrev pub handle_source_claims : {C : Type 0} → Time → Handler C
handle_source_claims now r s = claims_by now r.method r s

abbrev pub add_parent : {C : Type 0} → Time → Option ConfirmParentPayload → Handler C
add_parent now none r s = bad_request (codes "Bad Request") r s
add_parent now (some p) r s =
    if (is_address p.source && is_address p.group) && (is_address p.parent && is_address p.child)
    then molsr_changed 201 (codes "Confirm parent entry registered")
        (add_local_confirm_parent now p.source p.group p.parent p.child
          (claim_duration p.duration_seconds) s.daemon.molsr_mgr)
        r s
    else bad_request (codes "Invalid IP address formats") r s

abbrev pub delete_parent : {C : Type 0} → Option ConfirmParentPayload → Handler C
delete_parent none r s = bad_request (codes "Bad Request") r s
delete_parent (some p) r s =
    molsr_changed 200 (codes "Confirm parent entry deleted")
      (delete_local_confirm_parent p.source p.group p.child s.daemon.molsr_mgr) r s

abbrev pub parents_by : {C : Type 0} → Time → Method → Handler C
parents_by now get r s = answer 200 (confirm_parents (get_confirm_parents s.daemon.molsr_mgr)) r s
parents_by now post r s = add_parent now r.parent_payload r s
parents_by now delete_method r s = delete_parent r.parent_payload r s
parents_by now other_method r s = not_allowed r s

abbrev pub handle_confirm_parents : {C : Type 0} → Time → Handler C
handle_confirm_parents now r s = parents_by now r.method r s
