-- ===== src/Molsr.antt =====
-- internal/olsr/molsr.go: the tables of the MOLSRManager, and the methods that keep the source claims
-- and the parent confirmations. `now` is what time.Now() returns.
pub mod Mroutes
pub mod Laws
pub mod Oifs
pub mod Asked
pub mod Tests
use olsr_go.Base.{
  Bool, true, false, not, ◌||◌, Option, none, some, List, [], ◌∷◌, ◌++◌, if◌then◌else◌, Text, codes,
  text_eq, ◌==◌,
}
use olsr_go.Base.Int.{ℤ, ◌+ℤ◌}
use olsr_go.Base.Map.{GoMap, insert, delete}
use olsr_go.Base.Nested.{
  lookup2, insert2, delete2, sweep, any_inner, all_values, lookup3, insert3, delete3, sweep3,
  any_inner3, values,
}
use olsr_go.EventBus.{Event, topology_update}
use olsr_go.Net.{Ip, Time, Duration, after, ip_string}
use olsr_go.Packet.{SourceClaimMessage, ConfirmParentMessage}

pub record SourceClaim : Type 0 where
  pub source_ip : Text
  pub group_id : Text
  pub originator_ip : Text
  pub expiration_time : Time

pub record ConfirmParentEntry : Type 0 where
  pub source_ip : Text
  pub group_id : Text
  pub parent_ip : Text
  pub child_ip : Text
  pub expiration_time : Time

pub record MulticastForwardingEntry : Type 0 where
  pub source_ip : Text
  pub group_id : Text
  pub iif : ℤ
  pub oifs : List ℤ

-- `has_iface_index_lookup` is `IfaceIndexLookup != nil`, all that the methods read of that field.
pub record MolsrManager : Type 0 where
  pub router_id : Text
  pub source_claims : GoMap Text (GoMap Text SourceClaim)
  pub confirm_parents : GoMap Text (GoMap Text (GoMap Text ConfirmParentEntry))
  pub local_group : GoMap Text Bool
  pub active_mfc : GoMap Text MulticastForwardingEntry
  pub has_iface_index_lookup : Bool

abbrev pub new_molsr_manager : Text → MolsrManager
new_molsr_manager router_id = record {
  router_id = router_id;
  source_claims = [];
  confirm_parents = [];
  local_group = [];
  active_mfc = [];
  has_iface_index_lookup = false;
}

abbrev pub notice : Text → List (Event Text)
notice text = record { ev_type = topology_update; payload = text } ∷ []

-- The claim that is there, or a new one, before its expiration time is set.
abbrev pub claim_of : Text → Text → Text → Time → Option SourceClaim → SourceClaim
claim_of src grp orig exp none = record {
  source_ip = src;
  group_id = grp;
  originator_ip = orig;
  expiration_time = exp;
}
claim_of src grp orig exp (some claim) = record claim { expiration_time = exp }

unfoldable pub process_source_claim :
    Time → Ip → SourceClaimMessage → Duration → MolsrManager → MolsrManager × List (Event Text)
process_source_claim now originator sc vtime m =
    let grp = ip_string sc.group_id in
    let src = ip_string sc.source_ip in
    let orig = ip_string originator in
    let claim = claim_of src grp orig (now +ℤ vtime) (lookup2 grp src m.source_claims) in
    (
      record m { source_claims = insert2 grp src claim m.source_claims },
      notice (codes "source_claim_recv"),
    )

abbrev pub entry_of :
    Text → Text → Text → Text → Time → Option ConfirmParentEntry → ConfirmParentEntry
entry_of src grp parent child exp none = record {
  source_ip = src;
  group_id = grp;
  parent_ip = parent;
  child_ip = child;
  expiration_time = exp;
}
entry_of src grp parent child exp (some entry) = record entry { expiration_time = exp }

unfoldable pub process_confirm_parent :
    Time → Ip → ConfirmParentMessage → Duration → MolsrManager → MolsrManager × List (Event Text)
process_confirm_parent now originator cp vtime m =
    let grp = ip_string cp.group_id in
    let src = ip_string cp.source_ip in
    let parent = ip_string cp.parent_ip in
    let child = ip_string originator in
    let entry =
      entry_of src grp parent child (now +ℤ vtime) (lookup3 grp src child m.confirm_parents) in
    if not (parent == m.router_id) then (m, []) else (
      record m { confirm_parents = insert3 grp src child entry m.confirm_parents },
      notice (codes "confirm_parent_recv"),
    )

unfoldable pub join_group : Text → MolsrManager → MolsrManager
join_group group m = record m { local_group = insert group true m.local_group }

unfoldable pub leave_group : Text → MolsrManager → MolsrManager
leave_group group m = record m { local_group = delete group m.local_group }

unfoldable pub add_local_source_claim :
    Time → Text → Text → Duration → MolsrManager → MolsrManager × List (Event Text)
add_local_source_claim now src grp duration m =
    let claim = claim_of src grp m.router_id (now +ℤ duration) none in
    (
      record m { source_claims = insert2 grp src claim m.source_claims },
      notice (codes "local_source_claim_add"),
    )

unfoldable pub delete_local_source_claim :
    Text → Text → MolsrManager → MolsrManager × List (Event Text)
delete_local_source_claim src grp m = (
  record m { source_claims = delete2 grp src m.source_claims },
  notice (codes "local_source_claim_del"),
)

unfoldable pub add_local_confirm_parent :
    Time → Text → Text → Text → Text → Duration → MolsrManager → MolsrManager × List (Event Text)
add_local_confirm_parent now src grp parent child duration m =
    let entry = entry_of src grp parent child (now +ℤ duration) none in
    (
      record m { confirm_parents = insert3 grp src child entry m.confirm_parents },
      notice (codes "local_confirm_parent_add"),
    )

unfoldable pub delete_local_confirm_parent :
    Text → Text → Text → MolsrManager → MolsrManager × List (Event Text)
delete_local_confirm_parent src grp child m = (
  record m { confirm_parents = delete3 grp src child m.confirm_parents },
  notice (codes "local_confirm_parent_del"),
)

abbrev pub claim_expired : Time → SourceClaim → Bool
claim_expired now claim = after now claim.expiration_time

abbrev pub entry_expired : Time → ConfirmParentEntry → Bool
entry_expired now entry = after now entry.expiration_time

unfoldable pub age_out : Time → MolsrManager → MolsrManager × List (Event Text) × Bool
age_out now m =
    let changed =
      any_inner (claim_expired now) m.source_claims
      || any_inner3 (entry_expired now) m.confirm_parents in
    (
      record m {
        source_claims = sweep (claim_expired now) m.source_claims;
        confirm_parents = sweep3 (entry_expired now) m.confirm_parents;
      },
      (if changed then notice (codes "molsr_aging") else []),
      changed,
    )

unfoldable pub get_source_claims : MolsrManager → List SourceClaim
get_source_claims m = all_values m.source_claims

abbrev pub all_entries :
    GoMap Text (GoMap Text (GoMap Text ConfirmParentEntry)) → List ConfirmParentEntry
all_entries [] = []
all_entries ((grp, sources) ∷ rest) = all_values sources ++ all_entries rest

unfoldable pub get_confirm_parents : MolsrManager → List ConfirmParentEntry
get_confirm_parents m = all_entries m.confirm_parents

unfoldable pub get_active_mfc : MolsrManager → List MulticastForwardingEntry
get_active_mfc m = values m.active_mfc
