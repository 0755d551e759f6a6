-- ===== src/Hna.antt =====
-- internal/olsr/hna.go: the tables of the HNAManager and its methods. `now` is what time.Now() returns.
pub mod Laws
pub mod Reach
pub mod Tests
use olsr_go.Base.{
  Bool, true, false, Option, none, some, List, [], ◌∷◌, ◌++◌, if◌then◌else◌, Text, codes, text_eq,
  map,
}
use olsr_go.Base.Int.{pos, ◌+ℤ◌}
use olsr_go.Base.Map.{GoMap, insert, delete}
use olsr_go.Base.Nested.{lookup2, insert2, sweep, any_inner, values, all_values}
use olsr_go.EventBus.{Event, topology_update}
use olsr_go.Net.{Ip, Time, Duration, after, ip_string}
use olsr_go.Net.Cidr.{IpNet, cidr}
use olsr_go.Packet.{HnaAssociation, HnaMessage}

pub record HnaEntry : Type 0 where
  pub gateway_ip : Text
  pub network : IpNet
  pub expiration_time : Time
  pub is_local : Bool

pub record HnaManager : Type 0 where
  pub local_hnas : GoMap Text IpNet
  pub hna_set : GoMap Text (GoMap Text HnaEntry)

abbrev pub new_hna_manager : HnaManager
new_hna_manager = record { local_hnas = []; hna_set = [] }

unfoldable pub add_local_hna : IpNet → HnaManager → HnaManager × List (Event Text)
add_local_hna ip_net h = (
  record h { local_hnas = insert (cidr ip_net) ip_net h.local_hnas },
  record { ev_type = topology_update; payload = codes "local_hna_add" } ∷ [],
)

unfoldable pub remove_local_hna : IpNet → HnaManager → HnaManager × List (Event Text)
remove_local_hna ip_net h = (
  record h { local_hnas = delete (cidr ip_net) h.local_hnas },
  record { ev_type = topology_update; payload = codes "local_hna_del" } ∷ [],
)

unfoldable pub get_local_hnas : HnaManager → List IpNet
get_local_hnas h = values h.local_hnas

-- The loop body of ProcessHNA, on the entry that the table holds: the table, and whether it was
-- updated. An entry that is there gets a new expiration time only.
unfoldable pub update_entry :
    Text
    → Time
    → HnaAssociation
    → Option HnaEntry
    → GoMap Text (GoMap Text HnaEntry) × Bool
    → GoMap Text (GoMap Text HnaEntry) × Bool
update_entry gw exp assoc none s = (
  insert2 (cidr assoc.netmask) gw
      (record { gateway_ip = gw; network = assoc.netmask; expiration_time = exp; is_local = false })
      s.0,
  true,
)
update_entry gw exp assoc (some entry) s =
    (insert2 (cidr assoc.netmask) gw (record entry { expiration_time = exp }) s.0, s.1)

unfoldable pub process_hna_entry :
    Text
    → Time
    → HnaAssociation
    → GoMap Text (GoMap Text HnaEntry) × Bool
    → GoMap Text (GoMap Text HnaEntry) × Bool
process_hna_entry gw exp assoc s = update_entry gw exp assoc (lookup2 (cidr assoc.netmask) gw s.0) s

unfoldable pub process_hna_entries :
    Text
    → Time
    → List HnaAssociation
    → GoMap Text (GoMap Text HnaEntry) × Bool
    → GoMap Text (GoMap Text HnaEntry) × Bool
process_hna_entries gw exp [] s = s
process_hna_entries gw exp (assoc ∷ assocs) s =
    process_hna_entries gw exp assocs (process_hna_entry gw exp assoc s)

unfoldable pub process_hna :
    Time → Ip → HnaMessage → Duration → HnaManager → HnaManager × List (Event Text)
process_hna now originator hna vtime h =
    let (hna_set, updated) =
      process_hna_entries (ip_string originator) (now +ℤ vtime) hna.associations
        (h.hna_set, false) in
    (
      record h { hna_set = hna_set },
      if updated then record { ev_type = topology_update; payload = codes "hna_recv" } ∷ [] else [],
    )

abbrev pub entry_expired : Time → HnaEntry → Bool
entry_expired now entry = after now entry.expiration_time

unfoldable pub age_out : Time → HnaManager → HnaManager × List (Event Text) × Bool
age_out now h =
    let changed = any_inner (entry_expired now) h.hna_set in
    (
      record h { hna_set = sweep (entry_expired now) h.hna_set },
      (if changed
          then record { ev_type = topology_update; payload = codes "hna_aging" } ∷ []
          else []),
      changed,
    )

abbrev pub local_entry : IpNet → HnaEntry
local_entry ip_net = record {
  gateway_ip = codes "local";
  network = ip_net;
  expiration_time = pos 0;
  is_local = true;
}

unfoldable pub get_hna_entries : HnaManager → List HnaEntry
get_hna_entries h = map local_entry (values h.local_hnas) ++ all_values h.hna_set
