-- ===== src/Zebra.antt =====
-- internal/zebra: the ZAPI messages to the routing daemon of FRR, and the client that sends them.
pub mod Message
pub mod Multicast
pub mod Client
pub mod Reader
pub mod RoundTrip
pub mod Ipmr
pub mod Backoff
pub mod Sync
pub mod Tests
use olsr_go.Base.{ℕ, ◌/◌, ◌%◌, List, [], ◌∷◌, Text}
use olsr_go.Base.Int.{ℤ}

pub record UnicastRouteInfo : Type 0 where
  pub prefix : Text
  pub next_hop : Text
  pub iface_index : ℤ
  pub metric : ℤ

-- The errors of the messages, and those of the connection.
pub data ZapiError : Type 0 where
  bad_prefix not_ipv4 bad_prefix_length bad_ifindex bad_metric message_too_large : ZapiError
  bad_iif bad_oif_count bad_oif not_connected write_failed : ZapiError

abbrev pub zapi_marker : ℕ
zapi_marker = 0xfe

abbrev pub zapi_version6 : ℕ
zapi_version6 = 6

abbrev pub zebra_route_add : ℕ
zebra_route_add = 8

abbrev pub zebra_route_delete : ℕ
zebra_route_delete = 9

abbrev pub route_olsr : ℕ
route_olsr = 14

abbrev pub zebra_ipmr_route_add : ℕ
zebra_ipmr_route_add = 59

abbrev pub zebra_ipmr_route_del : ℕ
zebra_ipmr_route_del = 60

-- binary.Write(buf, binary.BigEndian, uint32(n))
abbrev pub be32 : ℕ → List ℕ
be32 n = (n / 16777216 % 256) ∷ (n / 65536 % 256) ∷ (n / 256 % 256) ∷ (n % 256) ∷ []
