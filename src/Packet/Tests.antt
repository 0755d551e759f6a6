-- ===== src/Packet/Tests.antt =====
-- Runs on concrete packets, over an exact stand-in for float64.
use olsr_go.Base.{
  ℕ, ◌+◌, ◌*◌, ◌/◌, ◌≤◌, ◌<◌, ◌≡◌, ◌≢◌, refl, false, List, [], ◌∷◌, length, arith, ok, panic,
  out_of_fuel,
}
use olsr_go.Base.Int.{ℤ, pos, negsuc, pos_part, neg_part, sub_ℕ, ltb_ℤ}
use olsr_go.Base.{text_beq}
use olsr_go.Net.{Ip, to4}
use olsr_go.Packet.MsgType
use olsr_go.Packet.{hello, tc, MessageHeader, Message, Packet}
use olsr_go.Packet.TimeVal.{
  Float64, IsOrdered, encode_time_val, decode_time_val, code_diff, second, mantissa, exponent,
}
use olsr_go.Packet.TimeVal.Nearest.{encode_time_val_nearest}
use olsr_go.Packet.Serialize.{
  write_ip, write_ips, write_link, write_links, serialize_tc_message, serialize_hello_message,
  serialize_body, serialize_message, serialize_messages, serialize_packet,
}
use olsr_go.Packet.Deserialize.{deserialize_hello_message, deserialize_packet}
use olsr_go.Packet.Total.{deserialize_packet_ends, deserialize_packet_bounds}
use olsr_go.Packet.Faults.{deserialize_packet_short_message, deserialize_hello_message_short_link}
use olsr_go.Packet.RoundTrip.{MessageFits, packet_as_read}
use olsr_go.Packet.RoundTrip.Packets.{deserialize_packet-serialize_packet}

-- Sixteen-hundredths of a second as the unit: every code of up to 0.06 * 10 ^ 15 seconds is exact.
abbrev scaled_mul : ℤ → ℤ → ℤ
scaled_mul a b =
    sub_ℕ ((pos_part a * pos_part b + neg_part a * neg_part b) / 1600)
      ((pos_part a * neg_part b + neg_part a * pos_part b) / 1600)

abbrev scaled_div : ℤ → ℤ → ℤ
scaled_div a b = sub_ℕ (pos_part a * 1600 / pos_part b) (neg_part a * 1600 / pos_part b)

abbrev pub exact : Float64
exact = record {
  Carrier = ℤ;
  six_hundredths = pos 96;
  one = pos 1600;
  ten = pos 16000;
  sixteen = pos 25600;
  nought = pos 0;
  minus_one = negsuc 1599;
  of_nat = λ n. pos (1600 * n);
  of_int = λ a. sub_ℕ (1600 * pos_part a) (1600 * neg_part a);
  to_int = λ a. sub_ℕ (pos_part a / 1600) (neg_part a / 1600);
  add = λ a b. sub_ℕ (pos_part a + pos_part b) (neg_part a + neg_part b);
  sub = λ a b. sub_ℕ (pos_part a + neg_part b) (neg_part a + pos_part b);
  mul = scaled_mul;
  div = scaled_div;
  neg = λ a. sub_ℕ (neg_part a) (pos_part a);
  lt = ltb_ℤ;
}

pub exact-IsOrdered : IsOrdered exact
exact-IsOrdered = record {
  irreflexive = λ a. ground arith;
  transitive = λ a b c p q. ground arith;
  neg_of_negative = λ a p. ground arith;
  minus_one_negative = refl;
}

-- 6 seconds: 0.06 * (1 + 9/16) * 10 ^ 2 is nearest, 5.625 s, or 6.0 s by a = 0, b = 2.
six_seconds : encode_time_val exact (pos 6_000_000_000) ≡ 2
unfolding encode_time_val
six_seconds = refl

six_seconds_back : decode_time_val exact 2 ≡ pos 6_000_000_000
unfolding decode_time_val
six_seconds_back = refl

abbrev neighbor : Ip
neighbor = 10 ∷ 0 ∷ 0 ∷ 2 ∷ []

abbrev sample_header : ℕ → MessageHeader
sample_header t = record {
  msg_type = t;
  vtime = pos 6_000_000_000;
  originator_address = 0 ∷ 0 ∷ 0 ∷ 0 ∷ 0 ∷ 0 ∷ 0 ∷ 0 ∷ 0 ∷ 0 ∷ 255 ∷ 255 ∷ 10 ∷ 0 ∷ 0 ∷ 1 ∷ [];
  ttl = 1;
  hop_count = 0;
  seq_num = 258;
}

abbrev sample_hello : Message
sample_hello = record {
  header = sample_header MsgType.hello;
  body = hello (record {
    htime = pos 6_000_000_000;
    willingness = 3;
    link_messages = record { link_code = 6; neighbor_addresses = neighbor ∷ [] } ∷ [];
  });
}

abbrev sample_tc : Message
sample_tc = record {
  header = sample_header MsgType.tc;
  body = tc (record { ansn = 513; neighbor_addresses = neighbor ∷ [] });
}

abbrev sample : Packet
sample = record {
  header = record { packet_length = 0; packet_seq_num = 7 };
  messages = sample_hello ∷ sample_tc ∷ [];
}

abbrev sample_bytes : List ℕ
sample_bytes =
    0 ∷ 48 ∷ 0 ∷ 7 ∷ 1 ∷ 2 ∷ 0 ∷ 24 ∷ 10 ∷ 0 ∷ 0 ∷ 1 ∷ 1 ∷ 0 ∷ 1 ∷ 2 ∷ 0 ∷ 0 ∷ 2 ∷ 3 ∷ 6 ∷ 0 ∷ 0 ∷ 8
    ∷ 10 ∷ 0 ∷ 0 ∷ 2 ∷ 2 ∷ 2 ∷ 0 ∷ 20 ∷ 10 ∷ 0 ∷ 0 ∷ 1 ∷ 1 ∷ 0 ∷ 1 ∷ 2 ∷ 2 ∷ 1 ∷ 0 ∷ 0 ∷ 10 ∷ 0 ∷ 0
    ∷ 2 ∷ []

sample_serialized : serialize_packet exact sample ≡ ok sample_bytes
unfolding serialize_packet serialize_messages serialize_message serialize_body
    serialize_hello_message serialize_tc_message write_links write_link write_ips write_ip to4
    text_beq encode_time_val
sample_serialized = refl

hello_fits : MessageFits sample_hello
hello_fits = record { has_type = refl; body_fits = tt; seq_fits = omega arith }

tc_fits : MessageFits sample_tc
tc_fits = record { has_type = refl; body_fits = omega arith; seq_fits = omega arith }

sample_deserialized : deserialize_packet exact sample_bytes ≡ ok (packet_as_read exact sample 48)
sample_deserialized =
    deserialize_packet-serialize_packet exact sample sample_bytes (omega arith)
      (hello_fits, (tc_fits, tt)) sample_serialized

sample_bounds : (48 ≤ length sample_bytes) × (4 + 12 * 2 ≤ 48)
sample_bounds =
    deserialize_packet_bounds exact sample_bytes (packet_as_read exact sample 48)
      sample_deserialized

sample_ends : deserialize_packet exact sample_bytes ≢ out_of_fuel
sample_ends = deserialize_packet_ends exact sample_bytes

nearest_example :
    (encode_time_val exact (pos 5_000_000_000) < 256)
    × (ltb_ℤ
          (code_diff exact (exact.div (exact.of_int (pos 5_000_000_000)) (exact.of_int second)) 9 2)
          (code_diff exact
            (exact.div (exact.of_int (pos 5_000_000_000)) (exact.of_int second))
            (mantissa (encode_time_val exact (pos 5_000_000_000)))
            (exponent (encode_time_val exact (pos 5_000_000_000))))
        ≡ false)
nearest_example =
    encode_time_val_nearest exact exact-IsOrdered (pos 5_000_000_000) 146 (omega arith)

-- Sixteen bytes from any sender on the link.
short_message_example :
    deserialize_packet exact (0 ∷ 16 ∷ 0 ∷ 1 ∷ 2 ∷ 2 ∷ 0 ∷ 0 ∷ 10 ∷ 0 ∷ 0 ∷ 9 ∷ 1 ∷ 0 ∷ 0 ∷ 1 ∷ [])
    ≡ panic
short_message_example =
    deserialize_packet_short_message exact 0 16 0 1 2 2 0 0 10 0 0 9 1 0 0 1 [] (omega arith)
      (omega arith) (omega arith) (omega arith)

short_link_example :
    deserialize_hello_message exact (0 ∷ 0 ∷ 2 ∷ 3 ∷ 6 ∷ 0 ∷ 0 ∷ 3 ∷ 10 ∷ []) ≡ panic
short_link_example =
    deserialize_hello_message_short_link exact 0 0 2 3 6 0 0 3 (10 ∷ []) (omega arith)
