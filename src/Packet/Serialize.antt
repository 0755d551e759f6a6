-- ===== src/Packet/Serialize.antt =====
-- internal/olsr/packet.go: SerializePacket. A write to a bytes.Buffer never fails, so the buffer is
-- the concatenation of what is written to it.
use olsr_go.Base.{
  ℕ, List, [], ◌∷◌, ◌++◌, none, some, ltb, length, if◌then◌else◌, Outcome, ok, err, ◌>>=◌,
  invalid_ipv4, unsupported_body, message_too_large, packet_too_large, link_too_large,
}
use olsr_go.Net.{Ip, to4}
use olsr_go.Packet.{
  HelloLinkMessage, HelloMessage, TcMessage, HnaAssociation, SourceClaimMessage,
  ConfirmParentMessage, Body, hello, tc, mid, hna, source_claim, confirm_parent, raw, MessageHeader,
  Message, Packet,
}
use olsr_go.Packet.Bytes.{be16, put_uint16}
use olsr_go.Packet.TimeVal.{Float64, encode_time_val}

-- The four bytes of an address, or the error that every writer returns for other addresses.
unfoldable pub write_ip : Ip → Outcome (List ℕ)
write_ip ip = elim (to4 ip) [ none ↦ err invalid_ipv4 | some ip4 ↦ ok ip4 ]

unfoldable pub write_ips : List Ip → Outcome (List ℕ)
write_ips [] = ok []
write_ips (ip ∷ ips) = do b ← write_ip ip; rest ← write_ips ips; ok (b ++ rest)

-- The loop body of serializeHelloMessage.
unfoldable pub write_link : HelloLinkMessage → Outcome (List ℕ)
write_link lm = do
  addrs ← write_ips lm.neighbor_addresses
  let link_bytes = lm.link_code ∷ 0 ∷ be16 0 ++ addrs
  if ltb 65535 (length link_bytes)
      then err link_too_large
      else ok (put_uint16 link_bytes 2 (length link_bytes))

unfoldable pub write_links : List HelloLinkMessage → Outcome (List ℕ)
write_links [] = ok []
write_links (lm ∷ lms) = do b ← write_link lm; rest ← write_links lms; ok (b ++ rest)

unfoldable pub write_associations : List HnaAssociation → Outcome (List ℕ)
write_associations [] = ok []
write_associations (a ∷ as') = do
  addr ← write_ip a.address
  mask ← write_ip a.netmask.mask
  rest ← write_associations as'
  ok (addr ++ (mask ++ rest))

unfoldable pub serialize_source_claim_message : SourceClaimMessage → Outcome (List ℕ)
serialize_source_claim_message body = do
  src ← write_ip body.source_ip
  grp ← write_ip body.group_id
  ok (src ++ grp)

unfoldable pub serialize_confirm_parent_message : ConfirmParentMessage → Outcome (List ℕ)
serialize_confirm_parent_message body = do
  src ← write_ip body.source_ip
  grp ← write_ip body.group_id
  parent ← write_ip body.parent_ip
  ok (src ++ (grp ++ parent))

unfoldable pub serialize_tc_message : TcMessage → Outcome (List ℕ)
serialize_tc_message body = do
  addrs ← write_ips body.neighbor_addresses
  ok (be16 body.ansn ++ be16 0 ++ addrs)

module _ (F : Float64) where
  unfoldable pub serialize_hello_message : HelloMessage → Outcome (List ℕ)
  serialize_hello_message body = do
    links ← write_links body.link_messages
    ok (be16 0 ++ encode_time_val F body.htime ∷ body.willingness ∷ links)

  unfoldable pub serialize_body : Body → Outcome (List ℕ)
  serialize_body (hello b) = serialize_hello_message b
  serialize_body (tc b) = serialize_tc_message b
  serialize_body (mid b) = write_ips b.addresses
  serialize_body (hna b) = write_associations b.associations
  serialize_body (source_claim b) = serialize_source_claim_message b
  serialize_body (confirm_parent b) = serialize_confirm_parent_message b
  serialize_body (raw bs) = err unsupported_body

  -- The header, with its size field still 0.
  abbrev pub message_bytes : MessageHeader → List ℕ → List ℕ → List ℕ
  message_bytes h orig body =
      h.msg_type ∷ encode_time_val F h.vtime ∷ be16 0
      ++ (orig ++ (h.ttl ∷ h.hop_count ∷ be16 h.seq_num ++ body))

  unfoldable pub serialize_message : Message → Outcome (List ℕ)
  serialize_message msg = do
    orig ← write_ip msg.header.originator_address
    body ← serialize_body msg.body
    let msg_bytes = message_bytes msg.header orig body
    if ltb 65535 (length msg_bytes)
        then err message_too_large
        else ok (put_uint16 msg_bytes 2 (length msg_bytes))

  unfoldable pub serialize_messages : List Message → Outcome (List ℕ)
  serialize_messages [] = ok []
  serialize_messages (msg ∷ msgs) = do
    b ← serialize_message msg
    rest ← serialize_messages msgs
    ok (b ++ rest)

  unfoldable pub serialize_packet : Packet → Outcome (List ℕ)
  serialize_packet p = do
    msgs ← serialize_messages p.messages
    let packet_bytes = be16 0 ++ be16 p.header.packet_seq_num ++ msgs
    if ltb 65535 (length packet_bytes)
        then err packet_too_large
        else ok (put_uint16 packet_bytes 0 (length packet_bytes))
