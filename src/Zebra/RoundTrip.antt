-- ===== src/Zebra/RoundTrip.antt =====
-- internal/zebra: the messages that are built read back as what they were built from.
use olsr_go.Base.{
  ℕ, ◌+◌, ◌/◌, ◌%◌, ◌<◌, ◌≤◌, ◌≡◌, refl, ap, inl, inr, true, Option, none, some, List, [], ◌∷◌,
  ◌++◌, ltb, leb, length, take, drop, length-append, length-take, length-drop, arith, Text,
  Bool-cases, Option-cases,
}
use olsr_go.Base.Int.{ℤ, pos, negsuc}
use olsr_go.Net.{Ip, to4}
use olsr_go.Net.Cidr.{IpNet}
use olsr_go.Net.Parse.{parse_cidr, parse_cidr_ip, mask_size}
use olsr_go.Packet.Bytes.{be16, put_uint16, take-append, drop-append}
use olsr_go.Daemon.Send.{parse_or_nil}
use olsr_go.Zebra.{route_olsr, be32}
use olsr_go.Zebra.Message.{
  message_header, with_size, unicast_bytes, unicast_message, build_unicast_route_message,
}
use olsr_go.Zebra.Reader.{
  read_u8, read_u16, read_u32, read_bytes, expect, read_header, UnicastRequest, read_unicast,
}

pub read_u32-be32 :
    (n : ℕ) (rest : List ℕ) → read_u32 (be32 n ++ rest) ≡ some (n % 4294967296, rest)
unfolding read_u32
read_u32-be32 n rest = ap (λ (k : ℕ). some (k, rest)) (omega arith)

pub read_bytes-append :
    (n : ℕ) (bs rest : List ℕ) → length bs ≡ n → read_bytes n (bs ++ rest) ≡ some (bs, rest)
unfolding read_bytes
read_bytes-append n bs rest e =
    let enough : leb n (length (bs ++ rest)) ≡ true = ground (arith, length-append bs rest, e) in
    let all : drop (length bs + 0) (bs ++ rest) ≡ rest = drop-append bs rest 0 in
    let back : length bs + 0 ≡ length bs = omega arith in
    rw enough (rw (← e) (cc (take-append bs rest, rw back at all)))

pub expect-append : (want rest : List ℕ) → expect want (want ++ rest) ≡ some rest
unfolding expect
expect-append [] rest = refl
expect-append (w ∷ want) rest = let ih = expect-append want rest in ground (arith, ih)

pub length-to4 : (ip : Ip) {ip4 : Ip} → to4 ip ≡ some ip4 → length ip4 ≡ 4
unfolding to4
length-to4 ip e = ground (arith, e, length-drop 12 ip)

read_header_lem :
    (cmd : ℕ) (body : List ℕ)
    → cmd < 65536
    → length body + 10 < 65536
    → read_header (put_uint16 (message_header cmd ++ body) 0 (length (message_header cmd ++ body)))
      ≡ some (cmd, body)
unfolding read_header read_u16 expect
read_header_lem cmd body small fits = ground arith

pub read_header-with_size :
    (cmd : ℕ) (body bytes : List ℕ)
    → cmd < 65536
    → with_size (message_header cmd ++ body) ≡ inl bytes
    → read_header bytes ≡ some (cmd, body)
read_header-with_size cmd body bytes small built =
    elim (Bool-cases (ltb 65535 (length (message_header cmd ++ body)))) [
      | inl large ↦ absurd (let g = rw large at built in cc)
      | inr fits ↦
          let same : put_uint16 (message_header cmd ++ body) 0 (length (message_header cmd ++ body))
              ≡ bytes =
            (let g = rw fits at built in cc) in
          rw (← same) (read_header_lem cmd body small (ground (arith, fits)))
    ]

-- The body of a message, with the prefix and the next hop as they stand in it.
abbrev unicast_body : ℕ → List ℕ → Ip → ℕ → ℕ → List ℕ
unicast_body ones prefix nh4 ifindex metric =
    (route_olsr ∷ be16 0 ++ (be32 0 ++ (be32 0x07 ++ (1 ∷ 2 ∷ ones ∷ []))))
    ++ (prefix
        ++ ((be16 1 ++ (be32 0 ++ (2 ∷ 0 ∷ []))) ++ (nh4 ++ (be32 ifindex ++ (150 ∷ be32 metric)))))

same_request :
    (cmd ones : ℕ) (prefix nh4 : List ℕ) {i i' m m' : ℕ}
    → i ≡ i'
    → m ≡ m'
    → ◌≡◌ {A = Option UnicastRequest}
        (some (record {
          cmd = cmd;
          prefix_length = ones;
          prefix = prefix;
          next_hop = nh4;
          ifindex = i;
          metric = m;
        }))
        (some (record {
          cmd = cmd;
          prefix_length = ones;
          prefix = prefix;
          next_hop = nh4;
          ifindex = i';
          metric = m';
        }))
same_request cmd ones prefix nh4 p q j = some (record {
  cmd = cmd;
  prefix_length = ones;
  prefix = prefix;
  next_hop = nh4;
  ifindex = p j;
  metric = q j;
})

read_unicast_lem :
    (cmd ones : ℕ) (prefix nh4 : List ℕ) (ifindex metric : ℕ) (bytes : List ℕ)
    → length prefix ≡ (ones + 7) / 8
    → length nh4 ≡ 4
    → read_header bytes ≡ some (cmd, unicast_body ones prefix nh4 ifindex metric)
    → read_unicast bytes
      ≡ some (record {
        cmd = cmd;
        prefix_length = ones;
        prefix = prefix;
        next_hop = nh4;
        ifindex = ifindex % 4294967296;
        metric = metric % 4294967296;
      })
unfolding read_unicast expect read_u8 read_u32
read_unicast_lem cmd ones prefix nh4 ifindex metric bytes len len4 header =
    rw (header, read_bytes-append ((ones + 7) / 8) prefix _ len)
      (rw (read_bytes-append 4 nh4 _ len4)
        (same_request cmd ones prefix nh4 (omega arith) (omega arith)))

-- What is read back from a message that was built for the route to a prefix: the fields of the request,
-- from the network and the two addresses in it.
abbrev pub unicast_request : ℕ → ℕ → Ip → Ip → ℕ → ℕ → UnicastRequest
unicast_request cmd ones ip4 nh4 ifindex metric = record {
  cmd = cmd;
  prefix_length = ones;
  prefix = take ((ones + 7) / 8) ip4;
  next_hop = nh4;
  ifindex = ifindex % 4294967296;
  metric = metric % 4294967296;
}

read_unicast-unicast_message :
    (cmd ones : ℕ) (ip nh : Option Ip) (ifindex metric : ℤ) (bytes : List ℕ)
    → cmd < 65536
    → ((ip4 : Ip) → ip ≡ some ip4 → length ip4 ≡ 4)
    → ((nh4 : Ip) → nh ≡ some nh4 → length nh4 ≡ 4)
    → unicast_message cmd ones ip nh ifindex metric ≡ inl bytes
    → (ip4 : Ip) × (nh4 : Ip) × (i : ℕ) × (m : ℕ) × (ip ≡ some ip4)
      × (nh ≡ some nh4)
      × (ifindex ≡ pos i)
      × (metric ≡ pos m)
      × (ones ≤ 32)
      × (read_unicast bytes ≡ some (unicast_request cmd ones ip4 nh4 i m))
unfolding unicast_message
read_unicast-unicast_message cmd ones none nh ifindex metric bytes small l4 n4 built = absurd (cc)
read_unicast-unicast_message cmd ones (some ip4) none ifindex metric bytes small l4 n4 built =
    absurd (cc)
read_unicast-unicast_message cmd ones (some ip4) (some nh4) (negsuc i) metric bytes small l4 n4
      built =
    absurd (ground (arith, built))
read_unicast-unicast_message cmd ones (some ip4) (some nh4) (pos i) (negsuc m) bytes small l4 n4
      built =
    absurd (ground (arith, built))
read_unicast-unicast_message cmd ones (some ip4) (some nh4) (pos i) (pos m) bytes small l4 n4
      built =
    elim (Bool-cases (ltb 32 ones)) [
      | inl long ↦ absurd (let g = rw long at built in cc)
      | inr short ↦
          let whole : with_size (unicast_bytes cmd ones ip4 nh4 i m) ≡ inl bytes =
            rw short at built in
          let prefix = take ((ones + 7) / 8) ip4 in
          let len : length prefix ≡ (ones + 7) / 8 =
            ground (arith, length-take ((ones + 7) / 8) ip4, l4 ip4 refl, short) in
          let header =
            read_header-with_size cmd (unicast_body ones prefix nh4 i m) bytes small whole in
          (
            ip4,
            nh4,
            i,
            m,
            refl,
            refl,
            refl,
            refl,
            ground (arith, short),
            read_unicast_lem cmd ones prefix nh4 i m bytes len (n4 nh4 refl) header,
          )
    ]

-- A message that buildUnicastRouteMessage makes reads back as its request: the command, the prefix
-- length of the network with the bytes of the address that it covers, the next hop, and the interface
-- and the metric as uint32s; and the size in its header is its length. A message is made only for an IPv4
-- prefix of at most 32 bits, an IPv4 next hop, and an interface and a metric that are not negative.
pub read_unicast-build_unicast_route_message :
    (cmd : ℕ) (prefix next_hop : Text) (ifindex metric : ℤ) (bytes : List ℕ)
    → cmd < 65536
    → build_unicast_route_message cmd prefix next_hop ifindex metric ≡ inl bytes
    → (net : IpNet) × (ip4 : Ip) × (nh4 : Ip) × (i : ℕ) × (m : ℕ) × (parse_cidr prefix ≡ some net)
      × (to4 (parse_cidr_ip prefix) ≡ some ip4)
      × (to4 (parse_or_nil next_hop) ≡ some nh4)
      × (ifindex ≡ pos i)
      × (metric ≡ pos m)
      × (mask_size net ≤ 32)
      × (read_unicast bytes ≡ some (unicast_request cmd (mask_size net) ip4 nh4 i m))
unfolding build_unicast_route_message
read_unicast-build_unicast_route_message cmd prefix next_hop ifindex metric bytes small built =
    elim (Option-cases (parse_cidr prefix)) [
      | inl bad ↦ absurd (let g = rw (bad, build_unicast_route_message) at built in cc)
      | inr (net, e) ↦
          let message = rw (e, build_unicast_route_message) at built in
          let x =
            read_unicast-unicast_message cmd (mask_size net) (to4 (parse_cidr_ip prefix))
              (to4 (parse_or_nil next_hop)) ifindex metric bytes small (λ a p. length-to4 _ p)
              (λ a p. length-to4 _ p) message in
          (net, x.0, x.1, x.2, x.3, e, x.4, x.5, x.6, x.7, x.8, x.9)
    ]
