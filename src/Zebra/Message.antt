-- ===== src/Zebra/Message.antt =====
-- internal/zebra/client.go: buildHelloMessage and buildUnicastRouteMessage.
use olsr_go.Base.{
  ℕ, ◌+◌, ◌/◌, Option, none, some, List, [], ◌∷◌, ◌++◌, ltb, length, take, if◌then◌else◌, Text, ◌⊎◌,
  inl, inr,
}
use olsr_go.Base.Int.{ℤ, pos, negsuc}
use olsr_go.Net.{Ip, to4}
use olsr_go.Net.Parse.{parse_cidr, parse_cidr_ip, mask_size}
use olsr_go.Packet.Bytes.{be16, put_uint16}
use olsr_go.Daemon.Send.{parse_or_nil}
use olsr_go.Zebra.{
  ZapiError, bad_prefix, not_ipv4, bad_prefix_length, bad_ifindex, bad_metric, message_too_large,
  zapi_marker, zapi_version6, route_olsr, be32,
}

-- The size, which is filled in later, the marker, the version, the VRF and the command.
abbrev pub message_header : ℕ → List ℕ
message_header cmd = be16 0 ++ (zapi_marker ∷ zapi_version6 ∷ be32 0) ++ be16 cmd

-- Writes the length into the first two bytes, unless it is too large for them.
abbrev pub with_size : List ℕ → List ℕ ⊎ ZapiError
with_size bytes =
    if ltb 65535 (length bytes)
    then inr message_too_large
    else inl (put_uint16 bytes 0 (length bytes))

-- The panic on a size above 65535 is never reached: the message has 19 bytes.
unfoldable pub build_hello_message : List ℕ
build_hello_message =
    let bytes = message_header 18 ++ (route_olsr ∷ be16 0 ++ (be32 0 ++ (0 ∷ 0 ∷ []))) in
    put_uint16 bytes 0 (length bytes)

-- The message for a prefix length of at most 32, up to the size.
abbrev pub unicast_bytes : ℕ → ℕ → Ip → Ip → ℕ → ℕ → List ℕ
unicast_bytes cmd ones ip4 nh4 ifindex metric =
    message_header cmd
    ++ ((route_olsr ∷ be16 0 ++ (be32 0 ++ (be32 0x07 ++ (1 ∷ 2 ∷ ones ∷ []))))
        ++ (take ((ones + 7) / 8) ip4
            ++ ((be16 1 ++ (be32 0 ++ (2 ∷ 0 ∷ [])))
                ++ (nh4 ++ (be32 ifindex ++ (150 ∷ be32 metric))))))

-- The checks in the order of the code. A negative prefix length cannot be: Size() of a CIDR mask is not.
unfoldable pub unicast_message : ℕ → ℕ → Option Ip → Option Ip → ℤ → ℤ → List ℕ ⊎ ZapiError
unicast_message cmd ones none nh ifindex metric = inr not_ipv4
unicast_message cmd ones (some ip4) none ifindex metric = inr not_ipv4
unicast_message cmd ones (some ip4) (some nh4) (negsuc i) metric =
    if ltb 32 ones then inr bad_prefix_length else inr bad_ifindex
unicast_message cmd ones (some ip4) (some nh4) (pos i) (negsuc m) =
    if ltb 32 ones then inr bad_prefix_length else inr bad_metric
unicast_message cmd ones (some ip4) (some nh4) (pos i) (pos m) =
    if ltb 32 ones then inr bad_prefix_length else with_size (unicast_bytes cmd ones ip4 nh4 i m)

unfoldable pub build_unicast_route_message : ℕ → Text → Text → ℤ → ℤ → List ℕ ⊎ ZapiError
unfolding unicast_message
build_unicast_route_message cmd prefix next_hop ifindex metric = elim (parse_cidr prefix) [
  | none ↦ inr bad_prefix
  | some net ↦
      unicast_message cmd (mask_size net) (to4 (parse_cidr_ip prefix)) (to4 (parse_or_nil next_hop))
        ifindex metric
]
