-- ===== src/Hna/Reach.antt =====
-- The states that the methods of the HNAManager lead to from NewHNAManager.
use olsr_go.Base.{Bool, false, Option, none, some, List, [], ◌∷◌, Text, text_eq}
use olsr_go.Base.Int.{◌+ℤ◌}
use olsr_go.Base.Map.{GoMap, IsMap, insert-IsMap, delete-IsMap}
use olsr_go.Base.Nested.{IsNested, insert2-IsNested, sweep-IsNested}
use olsr_go.Net.{Ip, Time, Duration, ip_string}
use olsr_go.Net.Cidr.{IpNet, cidr}
use olsr_go.Packet.{HnaAssociation, HnaMessage}
use olsr_go.Hna.{
  HnaEntry, HnaManager, new_hna_manager, add_local_hna, remove_local_hna, update_entry,
  process_hna_entry, process_hna_entries, process_hna, entry_expired, age_out,
}

pub record IsValid (h : HnaManager) : Type 0 where
  pub local_map : IsMap h.local_hnas
  pub hna_maps : IsNested h.hna_set

pub data HnaReachable : HnaManager → Type 0 where
  start : HnaReachable new_hna_manager
  after_add : {h : HnaManager} (n : IpNet) → HnaReachable h → HnaReachable (add_local_hna n h).0
  after_remove :
      {h : HnaManager} (n : IpNet) → HnaReachable h → HnaReachable (remove_local_hna n h).0
  after_hna :
      {h : HnaManager} (now : Time) (o : Ip) (hna : HnaMessage) (v : Duration)
      → HnaReachable h
      → HnaReachable (process_hna now o hna v h).0
  after_age_out : {h : HnaManager} (now : Time) → HnaReachable h → HnaReachable (age_out now h).0

update_entry-IsNested :
    (gw : Text) (exp : Time) (assoc : HnaAssociation) (o : Option HnaEntry)
    (s : GoMap Text (GoMap Text HnaEntry) × Bool)
    → IsNested s.0
    → IsNested (update_entry gw exp assoc o s).0
unfolding update_entry
update_entry-IsNested gw exp assoc none s h = insert2-IsNested (cidr assoc.netmask) gw _ s.0 h
update_entry-IsNested gw exp assoc (some e) s h = insert2-IsNested (cidr assoc.netmask) gw _ s.0 h

process_hna_entries-IsNested :
    (gw : Text) (exp : Time) (assocs : List HnaAssociation)
    (s : GoMap Text (GoMap Text HnaEntry) × Bool)
    → IsNested s.0
    → IsNested (process_hna_entries gw exp assocs s).0
unfolding process_hna_entries process_hna_entry
process_hna_entries-IsNested gw exp [] s h = h
process_hna_entries-IsNested gw exp (assoc ∷ assocs) s h =
    process_hna_entries-IsNested gw exp assocs _ (update_entry-IsNested gw exp assoc _ s h)

-- In every state that the methods lead to from a new manager, no network stands twice among the local
-- ones, and no network and no gateway below it twice among the remote ones.
pub HnaReachable-IsValid : (h : HnaManager) → HnaReachable h → IsValid h
unfolding add_local_hna remove_local_hna process_hna age_out
HnaReachable-IsValid _ start = record { local_map = tt; hna_maps = (tt, tt) }
HnaReachable-IsValid _ (after_add {h} n r) =
    let valid = HnaReachable-IsValid h r in
    record {
      local_map = insert-IsMap (cidr n) n h.local_hnas valid.local_map;
      hna_maps = valid.hna_maps;
    }
HnaReachable-IsValid _ (after_remove {h} n r) =
    let valid = HnaReachable-IsValid h r in
    record {
      local_map = delete-IsMap (cidr n) h.local_hnas valid.local_map;
      hna_maps = valid.hna_maps;
    }
HnaReachable-IsValid _ (after_hna {h} now o hna v r) =
    let valid = HnaReachable-IsValid h r in
    record {
      local_map = valid.local_map;
      hna_maps =
          process_hna_entries-IsNested (ip_string o) (now +ℤ v) hna.associations (h.hna_set, false)
            valid.hna_maps;
    }
HnaReachable-IsValid _ (after_age_out {h} now r) =
    let valid = HnaReachable-IsValid h r in
    record {
      local_map = valid.local_map;
      hna_maps = sweep-IsNested (entry_expired now) h.hna_set valid.hna_maps;
    }
