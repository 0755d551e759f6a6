-- ===== src/Packet/Deserialize.antt =====
-- internal/olsr/packet.go: DeserializePacket. A loop on an offset takes fuel; the offset is the
-- source's, and so is every bound. cloneIP and cloneMask copy, which the model does not show.
use olsr_go.Base.{
  ℕ, zero, suc, ◌+◌, ◌-◌, ◌*◌, ◌/◌, ◌%◌, List, [], ◌∷◌, ltb, nat_beq, length, if◌then◌else◌,
  Outcome, ok, err, out_of_fuel, ◌>>=◌, data_too_short, bad_packet_length, packet_length_mismatch,
  incomplete_header, message_exceeds_packet, bad_body_length, bad_link_header, link_exceeds_body,
  bad_address_length,
}
use olsr_go.Net.{Ip}
use olsr_go.Packet.MsgType
use olsr_go.Packet.{
  HelloLinkMessage, HelloMessage, TcMessage, MidMessage, HnaAssociation, HnaMessage,
  SourceClaimMessage, ConfirmParentMessage, Body, hello, tc, mid, hna, source_claim, confirm_parent,
  raw, Message, Packet,
}
use olsr_go.Packet.Bytes.{uint16, index, slice}
use olsr_go.Packet.TimeVal.{Float64, decode_time_val}

-- binary.BigEndian.Uint16(bs[lo:lo+2])
unfoldable pub read_uint16 : List ℕ → ℕ → Outcome ℕ
read_uint16 bs lo = do b ← slice bs lo (lo + 2); uint16 b

-- `for i := 0; i < n; i++ { addrs[i] = cloneIP(bs[i*4 : (i+1)*4]) }`, by the rounds left
unfoldable pub read_ips : ℕ → ℕ → List ℕ → Outcome (List Ip)
read_ips zero i bs = ok []
read_ips (suc n) i bs = do
  ip ← slice bs (i * 4) ((i + 1) * 4)
  rest ← read_ips n (i + 1) bs
  ok (ip ∷ rest)

-- The check of the length and the loop, which HELLO, TC and MID share.
unfoldable pub read_addresses : List ℕ → Outcome (List Ip)
read_addresses bs =
    if nat_beq (length bs % 4) 0 then read_ips (length bs / 4) 0 bs else err bad_address_length

-- One link message and the size that it declares.
unfoldable pub read_link : List ℕ → ℕ → Outcome (HelloLinkMessage × ℕ)
read_link bs offset = if ltb (length bs - offset) 4 then err bad_link_header else do
  link_code ← index bs offset
  link_msg_size ← read_uint16 bs (offset + 2)
  if ltb (length bs) (offset + link_msg_size) then err link_exceeds_body else do
    addr_data ← slice bs (offset + 4) (offset + link_msg_size)
    addrs ← read_addresses addr_data
    ok (record { link_code = link_code; neighbor_addresses = addrs }, link_msg_size)

unfoldable pub read_links : ℕ → List ℕ → ℕ → Outcome (List HelloLinkMessage)
read_links zero bs offset = out_of_fuel
read_links (suc fuel) bs offset =
    let more = (do
      (lm, size) ← read_link bs offset
      rest ← read_links fuel bs (offset + size)
      ok (lm ∷ rest)) in
    if ltb offset (length bs) then more else ok []

-- The loop of deserializeHNAMessage, by the rounds left
unfoldable pub read_associations : ℕ → ℕ → List ℕ → Outcome (List HnaAssociation)
read_associations zero i bs = ok []
read_associations (suc n) i bs = do
  addr ← slice bs (i * 8) (i * 8 + 4)
  mask ← slice bs (i * 8 + 4) (i * 8 + 8)
  rest ← read_associations n (i + 1) bs
  ok (record { address = addr; netmask = record { ip = addr; mask = mask } } ∷ rest)

unfoldable pub deserialize_tc_message : List ℕ → Outcome TcMessage
deserialize_tc_message bs = if ltb (length bs) 4 then err bad_body_length else do
  ansn ← read_uint16 bs 0
  addr_data ← slice bs 4 (length bs)
  addrs ← read_addresses addr_data
  ok (record { ansn = ansn; neighbor_addresses = addrs })

unfoldable pub deserialize_mid_message : List ℕ → Outcome MidMessage
deserialize_mid_message bs = do addrs ← read_addresses bs; ok (record { addresses = addrs })

unfoldable pub deserialize_hna_message : List ℕ → Outcome HnaMessage
deserialize_hna_message bs =
    if nat_beq (length bs % 8) 0
    then (do
      associations ← read_associations (length bs / 8) 0 bs
      ok (record { associations = associations }))
    else err bad_address_length

unfoldable pub deserialize_source_claim_message : List ℕ → Outcome SourceClaimMessage
deserialize_source_claim_message bs =
    if ltb (length bs) 8
    then err bad_body_length
    else do src ← slice bs 0 4; grp ← slice bs 4 8; ok (record { source_ip = src; group_id = grp })

unfoldable pub deserialize_confirm_parent_message : List ℕ → Outcome ConfirmParentMessage
deserialize_confirm_parent_message bs = if ltb (length bs) 12 then err bad_body_length else do
  src ← slice bs 0 4
  grp ← slice bs 4 8
  parent ← slice bs 8 12
  ok (record { source_ip = src; group_id = grp; parent_ip = parent })

module _ (F : Float64) where
  unfoldable pub deserialize_hello_message : List ℕ → Outcome HelloMessage
  deserialize_hello_message bs = if ltb (length bs) 4 then err bad_body_length else do
    htime_val ← index bs 2
    will ← index bs 3
    link_msgs ← read_links (length bs) bs 4
    ok (record {
      htime = decode_time_val F htime_val;
      willingness = will;
      link_messages = link_msgs;
    })

  -- The switch on the message type.
  unfoldable pub deserialize_body : ℕ → List ℕ → Outcome Body
  deserialize_body msg_type bs =
      if nat_beq msg_type MsgType.hello
      then (do b ← deserialize_hello_message bs; ok (hello b))
      else if nat_beq msg_type MsgType.tc
      then (do b ← deserialize_tc_message bs; ok (tc b))
      else if nat_beq msg_type MsgType.mid
      then (do b ← deserialize_mid_message bs; ok (mid b))
      else if nat_beq msg_type MsgType.hna
      then (do b ← deserialize_hna_message bs; ok (hna b))
      else if nat_beq msg_type MsgType.source_claim
      then (do b ← deserialize_source_claim_message bs; ok (source_claim b))
      else if nat_beq msg_type MsgType.confirm_parent
      then (do b ← deserialize_confirm_parent_message bs; ok (confirm_parent b))
      else ok (raw bs)

  -- The loop body: one message and the size that it declares.
  unfoldable pub read_message : List ℕ → ℕ → ℕ → Outcome (Message × ℕ)
  read_message bs pkt_len offset = if ltb (length bs - offset) 12 then err incomplete_header else do
    msg_type ← index bs offset
    vtime_val ← index bs (offset + 1)
    msg_size ← read_uint16 bs (offset + 2)
    originator ← slice bs (offset + 4) (offset + 8)
    ttl ← index bs (offset + 8)
    hop_count ← index bs (offset + 9)
    msg_seq ← read_uint16 bs (offset + 10)
    if ltb pkt_len (offset + msg_size) then err message_exceeds_packet else do
      body_data ← slice bs (offset + 12) (offset + msg_size)
      body ← deserialize_body msg_type body_data
      ok (
        record {
          header = record {
            msg_type = msg_type;
            vtime = decode_time_val F vtime_val;
            originator_address = originator;
            ttl = ttl;
            hop_count = hop_count;
            seq_num = msg_seq;
          };
          body = body;
        },
        msg_size,
      )

  unfoldable pub read_messages : ℕ → List ℕ → ℕ → ℕ → Outcome (List Message)
  read_messages zero bs pkt_len offset = out_of_fuel
  read_messages (suc fuel) bs pkt_len offset =
      let more = (do
        (msg, size) ← read_message bs pkt_len offset
        rest ← read_messages fuel bs pkt_len (offset + size)
        ok (msg ∷ rest)) in
      if ltb offset pkt_len then more else ok []

  unfoldable pub deserialize_packet : List ℕ → Outcome Packet
  deserialize_packet bs = if ltb (length bs) 4 then err data_too_short else do
    pkt_len ← read_uint16 bs 0
    pkt_seq ← read_uint16 bs 2
    if ltb pkt_len 4
        then err bad_packet_length
        else if ltb (length bs) pkt_len
        then err packet_length_mismatch
        else do
          messages ← read_messages (length bs) bs pkt_len 4
          ok (record {
            header = record { packet_length = pkt_len; packet_seq_num = pkt_seq };
            messages = messages;
          })
