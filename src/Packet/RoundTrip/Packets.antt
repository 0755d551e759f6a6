-- ===== src/Packet/RoundTrip/Packets.antt =====
-- Whole messages and packets, written and read back.
use olsr_go.Base.{
  ℕ, zero, suc, ◌+◌, ◌*◌, ◌/◌, ◌%◌, ◌≤◌, ◌<◌, ◌≡◌, refl, ap, ◌∙◌, List, [], ◌∷◌, ◌++◌, map, length,
  length-append, append_assoc, true, ltb, All, arith, ok, >>=-eq-ok,
}
use olsr_go.Packet.{Body, Message, Packet}
use olsr_go.Packet.TimeVal.{Float64, encode_time_val, decode_time_val}
use olsr_go.Packet.Bytes.{index, slice, slice-middle, slice-append, index-append}
use olsr_go.Packet.Serialize.{
  write_ip, serialize_body, serialize_message, serialize_messages, serialize_packet,
}
use olsr_go.Packet.Deserialize.{
  read_uint16, deserialize_body, read_message, read_messages, deserialize_packet,
}
use olsr_go.Packet.RoundTrip.{as_read, MessageFits, body_as_read, message_as_read, packet_as_read}
use olsr_go.Packet.RoundTrip.Addresses.{write_ip_lem}
use olsr_go.Packet.RoundTrip.Hello.{read_uint16-append, two_bytes, two_bytes-eq}
use olsr_go.Packet.RoundTrip.Bodies.{deserialize_body-serialize_body}

four_bytes :
    (b : List ℕ) → length b ≡ 4 → (o : ℕ) × (p : ℕ) × (q : ℕ) × (r : ℕ) × (b ≡ o ∷ p ∷ q ∷ r ∷ [])
four_bytes [] h = absurd (omega arith)
four_bytes (o ∷ []) h = absurd (omega arith)
four_bytes (o ∷ p ∷ []) h = absurd (omega arith)
four_bytes (o ∷ p ∷ q ∷ []) h = absurd (omega arith)
four_bytes (o ∷ p ∷ q ∷ r ∷ []) h = (o, p, q, r, refl)
four_bytes (o ∷ p ∷ q ∷ r ∷ s ∷ b) h = absurd (omega arith)

module _ (F : Float64) where
  module _ (t v hi lo o p q r ttl hop s_hi s_lo : ℕ) (body rest pre : List ℕ) (pkt_len seq : ℕ)
      (size : hi * 256 + lo ≡ 12 + length body) (seq_eq : s_hi * 256 + s_lo ≡ seq)
      (inside : length pre + (12 + length body) ≤ pkt_len) where
    abbrev tail_bytes : List ℕ
    tail_bytes = t ∷ v ∷ hi ∷ lo ∷ o ∷ p ∷ q ∷ r ∷ ttl ∷ hop ∷ s_hi ∷ s_lo ∷ (body ++ rest)

    abbrev bytes : List ℕ
    bytes = pre ++ tail_bytes

    length-bytes : length bytes ≡ length pre + 12 + length body + length rest
    length-bytes = omega (arith, length-append pre tail_bytes, length-append body rest)

    read_byte : (k b : ℕ) → index tail_bytes k ≡ ok b → index bytes (length pre + k) ≡ ok b
    read_byte k b h = index-append pre tail_bytes (length pre + k) k refl ∙ h

    type_read : index bytes (length pre) ≡ ok t
    type_read = index-append pre tail_bytes (length pre) 0 (omega arith) ∙ unfold index in refl

    size_read : read_uint16 bytes (length pre + 2) ≡ ok (12 + length body)
    size_read =
        read_uint16-append pre tail_bytes (length pre + 2) 2 refl
        ∙ read_uint16-append (t ∷ v ∷ []) _ 2 0 (omega arith)
        ∙ two_bytes hi lo _
        ∙ ap ok size

    seq_read : read_uint16 bytes (length pre + 10) ≡ ok seq
    seq_read =
        read_uint16-append pre tail_bytes (length pre + 10) 10 refl
        ∙ read_uint16-append (t ∷ v ∷ hi ∷ lo ∷ o ∷ p ∷ q ∷ r ∷ ttl ∷ hop ∷ []) _ 10 0 (omega arith)
        ∙ two_bytes s_hi s_lo _
        ∙ ap ok seq_eq

    originator_read : slice bytes (length pre + 4) (length pre + 8) ≡ ok (o ∷ p ∷ q ∷ r ∷ [])
    originator_read =
        slice-append pre tail_bytes (length pre + 4) (length pre + 8) 4 8 refl refl
        ∙ slice-middle (t ∷ v ∷ hi ∷ lo ∷ []) (o ∷ p ∷ q ∷ r ∷ []) _ 4 8 (omega arith) (omega arith)

    body_read : slice bytes (length pre + 12) (length pre + (12 + length body)) ≡ ok body
    body_read =
        slice-append pre tail_bytes (length pre + 12) (length pre + (12 + length body)) 12
          (12 + length body) refl refl
        ∙ slice-middle (t ∷ v ∷ hi ∷ lo ∷ o ∷ p ∷ q ∷ r ∷ ttl ∷ hop ∷ s_hi ∷ s_lo ∷ []) body rest 12
            (12 + length body) (omega arith) (omega arith)

    read_message-bytes :
        (b : Body)
        → deserialize_body F t body ≡ ok b
        → read_message F bytes pkt_len (length pre)
          ≡ ok (
            record {
              header = record {
                msg_type = t;
                vtime = decode_time_val F v;
                originator_address = o ∷ p ∷ q ∷ r ∷ [];
                ttl = ttl;
                hop_count = hop;
                seq_num = seq;
              };
              body = b;
            },
            12 + length body,
          )
    unfolding read_message
    read_message-bytes b h = ground (
      arith,
      length-bytes,
      type_read,
      read_byte 1 v (unfold index in refl),
      size_read,
      originator_read,
      read_byte 8 ttl (unfold index in refl),
      read_byte 9 hop (unfold index in refl),
      seq_read,
      body_read,
    )

  -- The bytes of a message: a header with the size of the whole, then the body.
  serialize_message_lem :
      (msg : Message) (b : List ℕ)
      → serialize_message F msg ≡ ok b
      → (o : ℕ) × (p : ℕ) × (q : ℕ) × (r : ℕ) × (body : List ℕ) × (serialize_body F msg.body
          ≡ ok body)
        × (as_read msg.header.originator_address ≡ o ∷ p ∷ q ∷ r ∷ [])
        × (12 + length body < 65536)
        × (b
            ≡ msg.header.msg_type
              ∷ encode_time_val F msg.header.vtime
              ∷ ((12 + length body) / 256 % 256)
              ∷ ((12 + length body) % 256)
              ∷ o
              ∷ p
              ∷ q
              ∷ r
              ∷ msg.header.ttl
              ∷ msg.header.hop_count
              ∷ (msg.header.seq_num / 256 % 256)
              ∷ (msg.header.seq_num % 256)
              ∷ body)
  unfolding serialize_message
  serialize_message_lem msg b h =
      let (orig, e, f) = >>=-eq-ok (write_ip msg.header.originator_address) _ h in
      let (body, g, k) = >>=-eq-ok (serialize_body F msg.body) _ f in
      let (four, same) = write_ip_lem msg.header.originator_address orig e in
      let (o, p, q, r, split) = four_bytes orig four in
      let k' = rw split at k in
      let n : suc (suc (suc (suc (suc (suc (suc (suc (suc (suc (suc (suc (length body))))))))))))
          ≡ 12 + length body =
        omega arith in
      (o, p, q, r, body, g, same ∙ split, ground (arith, rw n at k'), ground (arith, rw n at k'))

  read_message-serialize_message :
      (msg : Message) (b pre rest : List ℕ) (pkt_len : ℕ)
      → MessageFits msg
      → serialize_message F msg ≡ ok b
      → length pre + length b ≤ pkt_len
      → (12 ≤ length b)
        × (read_message F (pre ++ (b ++ rest)) pkt_len (length pre)
            ≡ ok (message_as_read F msg, length b))
  read_message-serialize_message msg b pre rest pkt_len fits h inside =
      let (o, p, q, r, body, g, orig, small, shape) = serialize_message_lem msg b h in
      let n : length b ≡ 12 + length body = rw shape (omega arith) in
      let seq = msg.header.seq_num in
      let back =
        read_message-bytes msg.header.msg_type (encode_time_val F msg.header.vtime)
          ((12 + length body) / 256 % 256) ((12 + length body) % 256) o p q r msg.header.ttl
          msg.header.hop_count (seq / 256 % 256) (seq % 256) body rest pre pkt_len seq
          (two_bytes-eq _ small) (two_bytes-eq _ fits.seq_fits) (omega arith)
          (body_as_read F msg.body)
          (deserialize_body-serialize_body F msg.body msg.header.msg_type body fits.has_type
            fits.body_fits g) in
      (omega arith, rw (n, shape) (rw orig back))

  serialize_messages-cons :
      (msg : Message) (msgs : List Message) (bs : List ℕ)
      → serialize_messages F (msg ∷ msgs) ≡ ok bs
      → (b : List ℕ) × (r : List ℕ) × (serialize_message F msg ≡ ok b)
        × (serialize_messages F msgs ≡ ok r)
        × (bs ≡ b ++ r)
  unfolding serialize_messages
  serialize_messages-cons msg msgs bs h =
      let (b, e, f) = >>=-eq-ok (serialize_message F msg) _ h in
      let (r, g, k) = >>=-eq-ok (serialize_messages F msgs) _ f in (b, r, e, g, cc)

  read_messages-serialize_messages :
      (msgs : List Message) (bs pre : List ℕ) (pkt_len fuel : ℕ)
      → All MessageFits msgs
      → serialize_messages F msgs ≡ ok bs
      → length pre + length bs ≡ pkt_len
      → length bs < fuel
      → read_messages F fuel (pre ++ bs) pkt_len (length pre) ≡ ok (map (message_as_read F) msgs)
  unfolding read_messages
  read_messages-serialize_messages msgs bs pre pkt_len zero fits h end enough = absurd (omega arith)
  read_messages-serialize_messages [] bs pre pkt_len (suc fuel) fits h end enough =
      unfold serialize_messages in ground (arith, h)
  read_messages-serialize_messages (msg ∷ msgs) bs pre pkt_len (suc fuel) fits h end enough =
      let (b, r, e, g, p) = serialize_messages-cons msg msgs bs h in
      let n : length bs ≡ length b + length r = rw p (length-append b r) in
      let (twelve, now) =
        read_message-serialize_message msg b pre r pkt_len fits.0 e (omega arith) in
      let ih =
        read_messages-serialize_messages msgs r (pre ++ b) pkt_len fuel fits.1 g
          (omega (arith, length-append pre b)) (omega arith) in
      let inside : ltb (length pre) pkt_len ≡ true = ground arith in
      let ih' = rw (append_assoc pre b r, length-append pre b) at ih in rw inside (rw (p, now, ih'))

  -- DeserializePacket reads back what SerializePacket wrote: the same packet, with each address as
  -- its four bytes, each time as its code stands for, and the length of the packet filled in. The
  -- sequence numbers are uint16s, and the type of each message is that of its body.
  pub deserialize_packet-serialize_packet :
      (p : Packet) (bs : List ℕ)
      → p.header.packet_seq_num < 65536
      → All MessageFits p.messages
      → serialize_packet F p ≡ ok bs
      → deserialize_packet F bs ≡ ok (packet_as_read F p (length bs))
  unfolding serialize_packet deserialize_packet
  deserialize_packet-serialize_packet p bs seq_fits fits h =
      let (msgs, e, f) = >>=-eq-ok (serialize_messages F p.messages) _ h in
      let n : ℕ = suc (suc (suc (suc (length msgs)))) in
      let small : n < 65536 = ground arith in
      let seq : ℕ = p.header.packet_seq_num in
      let front : List ℕ = (n / 256 % 256) ∷ (n % 256) ∷ (seq / 256 % 256) ∷ (seq % 256) ∷ [] in
      let shape : bs ≡ front ++ msgs = ground arith in
      let len_read = two_bytes (n / 256 % 256) (n % 256) (seq / 256 % 256 ∷ seq % 256 ∷ msgs) in
      let seq_read =
        read_uint16-append (n / 256 % 256 ∷ n % 256 ∷ []) _ 2 0 (omega arith)
        ∙ two_bytes (seq / 256 % 256) (seq % 256) msgs in
      let back =
        read_messages-serialize_messages p.messages msgs front n n fits e (omega arith)
          (omega arith) in
      rw shape
        (ground (arith, len_read, seq_read, two_bytes-eq n small, two_bytes-eq seq seq_fits, back))
