-- ===== src/Hna/Tests.antt =====
-- The HNA component on concrete tables.
use olsr_go.Base.{◌≡◌, refl, false, [], ◌∷◌, if◌then◌else◌, codes, text_eq, ◌==◌}
use olsr_go.Base.Int.{pos, ◌+ℤ◌}
use olsr_go.Base.Map.{lookup}
use olsr_go.Base.Nested.{lookup2, IsNested}
use olsr_go.Net.{Ip, ip_string}
use olsr_go.Net.Cidr.{IpNet}
use olsr_go.Packet.{HnaMessage}
use olsr_go.Hna.{HnaEntry, HnaManager, process_hna}
use olsr_go.Hna.Laws.{advertised, refreshed_by, lookup2-process_hna}

abbrev gateway : Ip
gateway = 10 ∷ 0 ∷ 0 ∷ 1 ∷ []

abbrev network : IpNet
network = record { ip = 192 ∷ 168 ∷ 4 ∷ 0 ∷ []; mask = 255 ∷ 255 ∷ 255 ∷ 0 ∷ [] }

abbrev advertises_network : HnaMessage
advertises_network = record {
  associations = record { address = 192 ∷ 168 ∷ 4 ∷ 0 ∷ []; netmask = network } ∷ [];
}

abbrev entry : HnaEntry
entry = record {
  gateway_ip = codes "10.0.0.1";
  network = network;
  expiration_time = pos 20;
  is_local = false;
}

abbrev one_entry : HnaManager
one_entry = record {
  local_hnas = [];
  hna_set = (codes "192.168.4.0/24", (codes "10.0.0.1", entry) ∷ []) ∷ [];
}

one_entry-IsNested : IsNested one_entry.hna_set
unfolding lookup
one_entry-IsNested = ((refl, tt), ((refl, tt), tt))

process_hna_example :
    lookup2
      (codes "192.168.4.0/24")
      (codes "10.0.0.1")
      (process_hna (pos 10) gateway advertises_network (pos 30) one_entry).0.hna_set
    ≡ (if ip_string gateway == codes "10.0.0.1"
        then refreshed_by
            (codes "10.0.0.1")
            (pos 10 +ℤ pos 30)
            (advertised (codes "192.168.4.0/24") advertises_network.associations)
            (lookup2 (codes "192.168.4.0/24") (codes "10.0.0.1") one_entry.hna_set)
        else lookup2 (codes "192.168.4.0/24") (codes "10.0.0.1") one_entry.hna_set)
process_hna_example =
    lookup2-process_hna (pos 10) gateway advertises_network (pos 30) one_entry
      (codes "192.168.4.0/24") (codes "10.0.0.1")
