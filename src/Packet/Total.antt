-- ===== src/Packet/Total.antt =====
-- internal/olsr/packet.go: how far the loops of DeserializePacket run.
use olsr_go.Base.{
  ℕ, zero, suc, ◌+◌, ◌-◌, ◌*◌, ◌≤◌, ◌<◌, ◌≡◌, ◌≢◌, List, [], ◌∷◌, Option, none, some, ltb, ltb→lt,
  ltb→le, Ends-err, packet_length_mismatch, length, if◌then◌else◌, Bool-cases, inl, inr, arith, ok,
  err, out_of_fuel, ◌>>=◌, or_panic, get_elem?, >>=-eq-ok, Ends, Ends-if, Ends-ok, Ends-bind_eq,
  Ends-bind, Ends-panic, ends_rules,
}
use olsr_go.Packet.{HelloLinkMessage, Message, Packet}
use olsr_go.Packet.Bytes.{uint16, index, slice, slice-cases}
use olsr_go.Packet.TimeVal.{Float64}
use olsr_go.Packet.Deserialize.{
  read_uint16, read_ips, read_addresses, read_link, read_links, read_associations,
  deserialize_tc_message, deserialize_mid_message, deserialize_hna_message,
  deserialize_source_claim_message, deserialize_confirm_parent_message, deserialize_hello_message,
  deserialize_body, read_message, read_messages, deserialize_packet,
}

Ends-or_panic {ℓ} : {A : Type ℓ} (o : Option A) → Ends (or_panic o)
Ends-or_panic none = Ends-panic
Ends-or_panic (some a) = Ends-ok a

Ends-index : (bs : List ℕ) (i : ℕ) → Ends (index bs i)
unfolding index
Ends-index bs i = Ends-or_panic (get_elem? bs i)

Ends-slice : (bs : List ℕ) (lo hi : ℕ) → Ends (slice bs lo hi)
unfolding slice
Ends-slice bs lo hi = search ends_rules

Ends-uint16 : (bs : List ℕ) → Ends (uint16 bs)
Ends-uint16 [] = Ends-panic
Ends-uint16 (a ∷ []) = Ends-panic
Ends-uint16 (a ∷ b ∷ bs) = Ends-ok _

Ends-read_uint16 : (bs : List ℕ) (i : ℕ) → Ends (read_uint16 bs i)
unfolding read_uint16
Ends-read_uint16 bs i = search (ends_rules, Ends-slice, Ends-uint16)

Ends-read_ips : (n i : ℕ) (bs : List ℕ) → Ends (read_ips n i bs)
unfolding read_ips
Ends-read_ips zero i bs = Ends-ok _
Ends-read_ips (suc n) i bs =
    Ends-bind (slice bs (i * 4) ((i + 1) * 4)) _ (Ends-slice bs _ _)
      λ ip. Ends-bind (read_ips n (i + 1) bs) _ (Ends-read_ips n (i + 1) bs) (λ rest. Ends-ok _)

Ends-read_addresses : (bs : List ℕ) → Ends (read_addresses bs)
unfolding read_addresses
Ends-read_addresses bs = search (ends_rules, Ends-read_ips)

ruleset read_rules = (ends_rules, Ends-index, Ends-slice, Ends-read_uint16, Ends-read_addresses)

Ends-read_link : (bs : List ℕ) (offset : ℕ) → Ends (read_link bs offset)
unfolding read_link
Ends-read_link bs offset = search read_rules depth 9

-- A link message that was read has a size of 4 at least.
pub read_link_size :
    (bs : List ℕ) (offset : ℕ) (lm : HelloLinkMessage) (size : ℕ)
    → read_link bs offset ≡ ok (lm, size)
    → (4 ≤ size) × (offset + size ≤ length bs)
unfolding read_link
read_link_size bs offset lm size h = ground (arith, slice-cases bs (offset + 4) (offset + size))

Ends-read_links :
    (fuel : ℕ) (bs : List ℕ) (offset : ℕ)
    → length bs - offset < fuel
    → Ends (read_links fuel bs offset)
unfolding read_links
Ends-read_links zero bs offset h = absurd (omega arith)
Ends-read_links (suc fuel) bs offset h = elim (Bool-cases (ltb offset (length bs))) [
  | inr done ↦ rw done (Ends-ok _)
  | inl inside ↦ rw inside (
      Ends-bind_eq (read_link bs offset) _ (Ends-read_link bs offset) λ r e.
        let (lm, size) = r in
        let fits = read_link_size bs offset lm size e in
        let below : offset < length bs = ltb→lt _ _ inside in
        let ih = Ends-read_links fuel bs (offset + size) (omega arith) in search (ends_rules, ih))
]

Ends-read_associations : (n i : ℕ) (bs : List ℕ) → Ends (read_associations n i bs)
unfolding read_associations
Ends-read_associations zero i bs = Ends-ok _
Ends-read_associations (suc n) i bs =
    Ends-bind (slice bs (i * 8) (i * 8 + 4)) _ (Ends-slice bs _ _) λ addr.
      Ends-bind (slice bs (i * 8 + 4) (i * 8 + 8)) _ (Ends-slice bs _ _) λ mask.
        Ends-bind (read_associations n (i + 1) bs) _ (Ends-read_associations n (i + 1) bs)
          λ rest. Ends-ok _

Ends-deserialize_tc_message : (bs : List ℕ) → Ends (deserialize_tc_message bs)
unfolding deserialize_tc_message
Ends-deserialize_tc_message bs = search read_rules depth 9

Ends-deserialize_mid_message : (bs : List ℕ) → Ends (deserialize_mid_message bs)
unfolding deserialize_mid_message
Ends-deserialize_mid_message bs = search read_rules depth 9

Ends-deserialize_hna_message : (bs : List ℕ) → Ends (deserialize_hna_message bs)
unfolding deserialize_hna_message
Ends-deserialize_hna_message bs = search (read_rules, Ends-read_associations) depth 9

Ends-deserialize_source_claim_message : (bs : List ℕ) → Ends (deserialize_source_claim_message bs)
unfolding deserialize_source_claim_message
Ends-deserialize_source_claim_message bs = search read_rules depth 9

Ends-deserialize_confirm_parent_message :
    (bs : List ℕ) → Ends (deserialize_confirm_parent_message bs)
unfolding deserialize_confirm_parent_message
Ends-deserialize_confirm_parent_message bs = search read_rules depth 9

module _ (F : Float64) where
  Ends-deserialize_hello_message : (bs : List ℕ) → Ends (deserialize_hello_message F bs)
  unfolding deserialize_hello_message
  Ends-deserialize_hello_message bs = elim (Bool-cases (ltb (length bs) 4)) [
    | inl short ↦ rw short (Ends-err _)
    | inr long ↦ rw long (
        Ends-bind (index bs 2) _ (Ends-index bs 2) λ htime.
          Ends-bind (index bs 3) _ (Ends-index bs 3) λ will.
            Ends-bind (read_links (length bs) bs 4) _
              (Ends-read_links (length bs) bs 4 (let p = ltb→le _ _ long in omega arith))
              λ links. Ends-ok _)
  ]

  Ends-deserialize_body : (t : ℕ) (bs : List ℕ) → Ends (deserialize_body F t bs)
  unfolding deserialize_body
  Ends-deserialize_body t bs =
      search
        (
          ends_rules, Ends-deserialize_hello_message, Ends-deserialize_tc_message,
          Ends-deserialize_mid_message, Ends-deserialize_hna_message,
          Ends-deserialize_source_claim_message, Ends-deserialize_confirm_parent_message,
        )
        depth 12

  Ends-read_message : (bs : List ℕ) (pkt_len offset : ℕ) → Ends (read_message F bs pkt_len offset)
  unfolding read_message
  Ends-read_message bs pkt_len offset = search (read_rules, Ends-deserialize_body) depth 20

  -- A message that was read has a size of 12 at least, and lies inside the packet.
  pub read_message_size :
      (bs : List ℕ) (pkt_len offset : ℕ) (msg : Message) (size : ℕ)
      → read_message F bs pkt_len offset ≡ ok (msg, size)
      → (12 ≤ size) × (offset + size ≤ pkt_len)
  unfolding read_message
  read_message_size bs pkt_len offset msg size h =
      ground (arith, slice-cases bs (offset + 12) (offset + size))

  Ends-read_messages :
      (fuel : ℕ) (bs : List ℕ) (pkt_len offset : ℕ)
      → pkt_len - offset < fuel
      → Ends (read_messages F fuel bs pkt_len offset)
  unfolding read_messages
  Ends-read_messages zero bs pkt_len offset h = absurd (omega arith)
  Ends-read_messages (suc fuel) bs pkt_len offset h = elim (Bool-cases (ltb offset pkt_len)) [
    | inr done ↦ rw done (Ends-ok _)
    | inl inside ↦ rw inside (
        Ends-bind_eq (read_message F bs pkt_len offset) _ (Ends-read_message bs pkt_len offset)
          λ r e.
            let (msg, size) = r in
            let fits = read_message_size bs pkt_len offset msg size e in
            let below : offset < pkt_len = ltb→lt _ _ inside in
            let ih = Ends-read_messages fuel bs pkt_len (offset + size) (omega arith) in
            search (ends_rules, ih))
  ]

  Ends-deserialize_packet : (bs : List ℕ) → Ends (deserialize_packet F bs)
  unfolding deserialize_packet
  Ends-deserialize_packet bs = elim (Bool-cases (ltb (length bs) 4)) [
    | inl short ↦ rw short (Ends-err _)
    | inr long ↦ rw long (
        Ends-bind (read_uint16 bs 0) _ (Ends-read_uint16 bs 0) λ pkt_len.
          Ends-bind (read_uint16 bs 2) _ (Ends-read_uint16 bs 2) λ pkt_seq.
            Ends-if (ltb pkt_len 4) _ _ (Ends-err _) (enough pkt_len pkt_seq (ltb→le _ _ long)))
  ]
    where
      enough :
          (pkt_len pkt_seq : ℕ)
          → 4 ≤ length bs
          → Ends {A = Packet} (
              if ltb (length bs) pkt_len
              then err packet_length_mismatch
              else (read_messages F (length bs) bs pkt_len 4 >>= λ messages. ok (record {
                header = record { packet_length = pkt_len; packet_seq_num = pkt_seq };
                messages = messages;
              })))
      enough pkt_len pkt_seq h = elim (Bool-cases (ltb (length bs) pkt_len)) [
        | inl beyond ↦ rw beyond (Ends-err _)
        | inr within ↦ rw within (
            let fits = ltb→le _ _ within in
            Ends-bind _ _ (Ends-read_messages (length bs) bs pkt_len 4 (omega arith))
              (λ m. Ends-ok _))
      ]

  -- DeserializePacket ends on every input: its fuel, the length of the input, is enough for the
  -- loop over the messages and for each loop over the links of a HELLO.
  pub deserialize_packet_ends : (bs : List ℕ) → deserialize_packet F bs ≢ out_of_fuel
  deserialize_packet_ends bs = (Ends-deserialize_packet bs).has_fuel

  length-read_messages :
      (fuel : ℕ) (bs : List ℕ) (pkt_len offset : ℕ) (msgs : List Message)
      → read_messages F fuel bs pkt_len offset ≡ ok msgs
      → offset ≤ pkt_len
      → 12 * length msgs + offset ≤ pkt_len
  unfolding read_messages
  length-read_messages zero bs pkt_len offset msgs h le = cc
  length-read_messages (suc fuel) bs pkt_len offset msgs h le =
      elim (Bool-cases (ltb offset pkt_len)) [
        | inr done ↦ let e : ok [] ≡ ok msgs = rw done at h in ground (arith, e)
        | inl inside ↦
            let ((msg, size), e, f) =
              >>=-eq-ok (read_message F bs pkt_len offset) _ (rw inside at h) in
            let (rest, g, k) = >>=-eq-ok (read_messages F fuel bs pkt_len (offset + size)) _ f in
            let fits = read_message_size bs pkt_len offset msg size e in
            let ih = length-read_messages fuel bs pkt_len (offset + size) rest g (omega arith) in
            ground arith
      ]

  -- An accepted packet lies inside the input, and every message has its 12 bytes of header in it.
  pub deserialize_packet_bounds :
      (bs : List ℕ) (p : Packet)
      → deserialize_packet F bs ≡ ok p
      → (p.header.packet_length ≤ length bs) × (4 + 12 * length p.messages ≤ p.header.packet_length)
  unfolding deserialize_packet
  deserialize_packet_bounds bs p h =
      ground (arith, length-read_messages (length bs) bs p.header.packet_length 4 p.messages)
