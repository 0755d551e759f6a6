-- ===== src/Zebra/Tests.antt =====
-- internal/zebra: the theorems at concrete messages and connections.
use Prim.Native.Nat.{min}
use olsr_go.Base.{
  ℕ, ◌*◌, ◌/◌, ◌^◌, ◌<◌, ◌≤◌, ◌≡◌, refl, inl, Bool, true, false, some, List, [], ◌∷◌, arith, codes,
  length,
}
use olsr_go.Base.Int.{pos}
use olsr_go.Net.{Ip, to4}
use olsr_go.Net.Cidr.{IpNet}
use olsr_go.Net.Parse.{parse_cidr, parse_cidr_ip, mask_size}
use olsr_go.Daemon.Send.{parse_or_nil}
use olsr_go.Zebra.{UnicastRouteInfo, zebra_route_add, zebra_ipmr_route_add}
use olsr_go.Zebra.Message.{build_hello_message, build_unicast_route_message}
use olsr_go.Zebra.Multicast.{write_oifs, write_ipmr_body, build_ipmr_message}
use olsr_go.Zebra.Client.{up, one_second, new_client, attempt}
use olsr_go.Zebra.Reader.{read_unicast, read_ipmr}
use olsr_go.Zebra.RoundTrip.{unicast_request, read_unicast-build_unicast_route_message}
use olsr_go.Zebra.Ipmr.{AreIndices, ipmr_request, read_ipmr-build_ipmr_message}
use olsr_go.Zebra.Backoff.{fail, after_failures, after_failures_backoff}
use olsr_go.Zebra.Sync.{announcements, attempt_announces}

-- 10.1.0.0/16 by 10.0.0.2 on interface 3 with a metric of 2.
abbrev route_bytes : List ℕ
route_bytes =
    0 ∷ 47 ∷ 254 ∷ 6 ∷ 0 ∷ 0 ∷ 0 ∷ 0 ∷ 0 ∷ 8 ∷ 14 ∷ 0 ∷ 0 ∷ 0 ∷ 0 ∷ 0 ∷ 0 ∷ 0 ∷ 0 ∷ 0 ∷ 7 ∷ 1 ∷ 2
    ∷ 16 ∷ 10 ∷ 1 ∷ 0 ∷ 1 ∷ 0 ∷ 0 ∷ 0 ∷ 0 ∷ 2 ∷ 0 ∷ 10 ∷ 0 ∷ 0 ∷ 2 ∷ 0 ∷ 0 ∷ 0 ∷ 3 ∷ 150 ∷ 0 ∷ 0 ∷ 0
    ∷ 2 ∷ []

route_built :
    build_unicast_route_message zebra_route_add
      (codes "10.1.0.0/16")
      (codes "10.0.0.2")
      (pos 3)
      (pos 2)
    ≡ inl route_bytes
unfolding build_unicast_route_message parse_cidr to4 parse_cidr_ip olsr_go.Net.Parse.parse_ip
    olsr_go.Net.Cidr.mask_length
route_built = refl

unicast_example :
    (net : IpNet) × (ip4 : Ip) × (nh4 : Ip) × (i : ℕ) × (m : ℕ) × (parse_cidr (codes "10.1.0.0/16")
      ≡ some net)
    × (to4 (parse_cidr_ip (codes "10.1.0.0/16")) ≡ some ip4)
    × (to4 (parse_or_nil (codes "10.0.0.2")) ≡ some nh4)
    × (pos 3 ≡ pos i)
    × (pos 2 ≡ pos m)
    × (mask_size net ≤ 32)
    × (read_unicast route_bytes
        ≡ some (unicast_request zebra_route_add (mask_size net) ip4 nh4 i m))
unicast_example =
    read_unicast-build_unicast_route_message zebra_route_add (codes "10.1.0.0/16")
      (codes "10.0.0.2") (pos 3) (pos 2) route_bytes (omega arith) route_built

abbrev sender : Ip
sender = 10 ∷ 0 ∷ 0 ∷ 1 ∷ []

abbrev stream : Ip
stream = 239 ∷ 1 ∷ 2 ∷ 3 ∷ []

-- From interface 2 to the interfaces 3 and 4.
abbrev ipmr_bytes : List ℕ
ipmr_bytes =
    0 ∷ 43 ∷ 254 ∷ 6 ∷ 0 ∷ 0 ∷ 0 ∷ 0 ∷ 0 ∷ 59 ∷ 2 ∷ 10 ∷ 0 ∷ 0 ∷ 1 ∷ 239 ∷ 1 ∷ 2 ∷ 3 ∷ 0 ∷ 0 ∷ 0 ∷ 2
    ∷ 0 ∷ 0 ∷ 0 ∷ 2 ∷ 0 ∷ 0 ∷ 0 ∷ 3 ∷ 0 ∷ 0 ∷ 0 ∷ 1 ∷ 0 ∷ 0 ∷ 0 ∷ 4 ∷ 0 ∷ 0 ∷ 0 ∷ 1 ∷ []

ipmr_built :
    build_ipmr_message zebra_ipmr_route_add sender stream (pos 2) (pos 3 ∷ pos 4 ∷ [])
    ≡ inl ipmr_bytes
unfolding build_ipmr_message write_ipmr_body write_oifs to4
ipmr_built = refl

ipmr_example :
    (src4 : Ip) × (grp4 : Ip) × (i : ℕ) × (to4 sender ≡ some src4)
    × (to4 stream ≡ some grp4)
    × (pos 2 ≡ pos i)
    × AreIndices (pos 3 ∷ pos 4 ∷ [])
    × (read_ipmr ipmr_bytes
        ≡ some (ipmr_request zebra_ipmr_route_add src4 grp4 i (pos 3 ∷ pos 4 ∷ [])))
ipmr_example =
    read_ipmr-build_ipmr_message zebra_ipmr_route_add sender stream (pos 2) (pos 3 ∷ pos 4 ∷ [])
      ipmr_bytes (omega arith) ipmr_built

abbrev one_route : UnicastRouteInfo
one_route = record {
  prefix = codes "10.1.0.0/16";
  next_hop = codes "10.0.0.2";
  iface_index = pos 3;
  metric = pos 2;
}

announce_example :
    let s = attempt true true 0 (λ k. true) (one_route ∷ []) new_client in
    (s.written ≡ build_hello_message ∷ announcements (one_route ∷ []))
    × (s.client.connected ≡ true)
    × (s.statuses ≡ up ∷ [])
announce_example = attempt_announces 0 (λ k. true) (one_route ∷ []) new_client (λ k. refl)

abbrev seven_failures : List (Bool × ℕ)
seven_failures =
    (false, 1) ∷ (true, 2) ∷ (false, 3) ∷ (false, 4) ∷ (true, 5) ∷ (false, 6) ∷ (false, 7) ∷ []

backoff_example :
    let c' = after_failures seven_failures new_client in
    let slept = (fail false 9 (λ k. true) [] c').slept in
    (c'.backoff ≡ 2 ^ min (length seven_failures) 5 * one_second)
    × (0 < c'.backoff / 2)
    × (c'.backoff ≤ slept)
    × (9 < c'.backoff / 2 → slept < 48 * one_second)
backoff_example = after_failures_backoff seven_failures new_client false 9 (λ k. true) [] refl
