-- ===== src/Packet/RoundTrip.antt =====
-- What a packet reads back as. The wire keeps an address as its four bytes and a time as a code, and
-- the reader sets the length of the packet and the base of each netmask.
pub mod Addresses
pub mod Hello
pub mod Bodies
pub mod Packets
use olsr_go.Base.{ℕ, ◌<◌, List, [], ◌∷◌, none, some, All, ◌≡◌, map}
use olsr_go.Net.{Ip, Duration, to4}
use olsr_go.Packet.MsgType
use olsr_go.Packet.{
  HelloLinkMessage, HelloMessage, HnaAssociation, Body, hello, tc, mid, hna, source_claim,
  confirm_parent, raw, MessageHeader, Message, Packet,
}
use olsr_go.Packet.TimeVal.{Float64, encode_time_val, decode_time_val}

-- The four bytes of an address; an address that has none is not on the wire.
abbrev pub as_read : Ip → Ip
as_read ip = elim (to4 ip) [ none ↦ ip | some ip4 ↦ ip4 ]

abbrev pub link_as_read : HelloLinkMessage → HelloLinkMessage
link_as_read lm = record lm { neighbor_addresses = map as_read lm.neighbor_addresses }

abbrev pub association_as_read : HnaAssociation → HnaAssociation
association_as_read a = record {
  address = as_read a.address;
  netmask = record { ip = as_read a.address; mask = as_read a.netmask.mask };
}

-- The type that a body goes by; a body of unknown type has none.
abbrev pub HasType : Body → ℕ → Type 0
HasType (hello b) t = t ≡ MsgType.hello
HasType (tc b) t = t ≡ MsgType.tc
HasType (mid b) t = t ≡ MsgType.mid
HasType (hna b) t = t ≡ MsgType.hna
HasType (source_claim b) t = t ≡ MsgType.source_claim
HasType (confirm_parent b) t = t ≡ MsgType.confirm_parent
HasType (raw bs) t = ⊥

-- The uint16 fields are in range.
abbrev pub BodyFits : Body → Type 0
BodyFits (tc b) = b.ansn < 65536
BodyFits _ = Unit

pub record MessageFits (msg : Message) : Type 0 where
  pub has_type : HasType msg.body msg.header.msg_type
  pub body_fits : BodyFits msg.body
  pub seq_fits : msg.header.seq_num < 65536

module _ (F : Float64) where
  abbrev pub time_as_read : Duration → Duration
  time_as_read d = decode_time_val F (encode_time_val F d)

  abbrev pub hello_as_read : HelloMessage → HelloMessage
  hello_as_read b = record b {
    htime = time_as_read b.htime;
    link_messages = map link_as_read b.link_messages;
  }

  abbrev pub body_as_read : Body → Body
  body_as_read (hello b) = hello (hello_as_read b)
  body_as_read (tc b) = tc (record b { neighbor_addresses = map as_read b.neighbor_addresses })
  body_as_read (mid b) = mid (record { addresses = map as_read b.addresses })
  body_as_read (hna b) = hna (record { associations = map association_as_read b.associations })
  body_as_read (source_claim b) =
      source_claim (record { source_ip = as_read b.source_ip; group_id = as_read b.group_id })
  body_as_read (confirm_parent b) = confirm_parent (record {
    source_ip = as_read b.source_ip;
    group_id = as_read b.group_id;
    parent_ip = as_read b.parent_ip;
  })
  body_as_read (raw bs) = raw bs

  abbrev pub header_as_read : MessageHeader → MessageHeader
  header_as_read h = record h {
    vtime = time_as_read h.vtime;
    originator_address = as_read h.originator_address;
  }

  abbrev pub message_as_read : Message → Message
  message_as_read m = record { header = header_as_read m.header; body = body_as_read m.body }

  abbrev pub packet_as_read : Packet → ℕ → Packet
  packet_as_read p size = record {
    header = record p.header { packet_length = size };
    messages = map message_as_read p.messages;
  }
