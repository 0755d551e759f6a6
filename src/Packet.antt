-- ===== src/Packet.antt =====
-- internal/olsr/packet.go: the packets and messages of the protocol, as Go's structs. A byte is a
-- number below 256 and a uint16 one below 65536; the children say where a range is needed.
pub mod MsgType
pub mod LinkType
pub mod NeighType
pub mod TimeVal
pub mod Bytes
pub mod Serialize
pub mod Deserialize
pub mod Total
pub mod Writes
pub mod RoundTrip
pub mod Faults
pub mod Tests
use olsr_go.Base.{ℕ, List}
use olsr_go.Net.{Ip, Duration}
use olsr_go.Net.Cidr.{IpNet}

abbrev pub will_never : ℕ
will_never = 0

abbrev pub will_default : ℕ
will_default = 3

pub record PacketHeader : Type 0 where
  pub packet_length : ℕ
  pub packet_seq_num : ℕ

pub record MessageHeader : Type 0 where
  pub msg_type : ℕ
  pub vtime : Duration
  pub originator_address : Ip
  pub ttl : ℕ
  pub hop_count : ℕ
  pub seq_num : ℕ

pub record HelloLinkMessage : Type 0 where
  pub link_code : ℕ
  pub neighbor_addresses : List Ip

pub record HelloMessage : Type 0 where
  pub htime : Duration
  pub willingness : ℕ
  pub link_messages : List HelloLinkMessage

pub record TcMessage : Type 0 where
  pub ansn : ℕ
  pub neighbor_addresses : List Ip

pub record MidMessage : Type 0 where
  pub addresses : List Ip

pub record HnaAssociation : Type 0 where
  pub address : Ip
  pub netmask : IpNet

pub record HnaMessage : Type 0 where
  pub associations : List HnaAssociation

pub record SourceClaimMessage : Type 0 where
  pub source_ip : Ip
  pub group_id : Ip

pub record ConfirmParentMessage : Type 0 where
  pub source_ip : Ip
  pub group_id : Ip
  pub parent_ip : Ip

-- What the field `Body interface{}` holds; `raw` is the byte slice of a message of unknown type.
pub data Body : Type 0 where
  hello : HelloMessage → Body
  tc : TcMessage → Body
  mid : MidMessage → Body
  hna : HnaMessage → Body
  source_claim : SourceClaimMessage → Body
  confirm_parent : ConfirmParentMessage → Body
  raw : List ℕ → Body

pub record Message : Type 0 where
  pub header : MessageHeader
  pub body : Body

pub record Packet : Type 0 where
  pub header : PacketHeader
  pub messages : List Message
