-- ===== src/Packet/RoundTrip/Bodies.antt =====
-- The other message bodies, written and read back, and the switch on the type.
use olsr_go.Base.{
  ℕ, ◌+◌, ◌/◌, ◌%◌, ◌<◌, ◌≡◌, ap, ◌∙◌, List, [], ◌∷◌, ◌++◌, map, length, length-append,
  append_assoc, append-nil, arith, ok, >>=-eq-ok,
}
use olsr_go.Packet.{
  TcMessage, MidMessage, HnaMessage, SourceClaimMessage, ConfirmParentMessage, Body, hello, tc, mid,
  hna, source_claim, confirm_parent, raw,
}
use olsr_go.Packet.TimeVal.{Float64}
use olsr_go.Packet.Bytes.{slice-middle}
use olsr_go.Packet.Serialize.{
  write_ip, write_ips, write_associations, serialize_tc_message, serialize_source_claim_message,
  serialize_confirm_parent_message, serialize_body,
}
use olsr_go.Packet.Deserialize.{
  read_uint16, deserialize_tc_message, deserialize_mid_message, deserialize_hna_message,
  deserialize_source_claim_message, deserialize_confirm_parent_message, deserialize_body,
}
use olsr_go.Packet.RoundTrip.{as_read, association_as_read, HasType, BodyFits, body_as_read}
use olsr_go.Packet.RoundTrip.Addresses.{
  write_ip_lem, read_addresses-write_ips, length-write_associations,
  read_associations-write_associations,
}
use olsr_go.Packet.RoundTrip.Hello.{two_bytes, two_bytes-eq, deserialize_hello_message-serialize}

tc_message-read :
    (body : TcMessage) (bs : List ℕ)
    → body.ansn < 65536
    → serialize_tc_message body ≡ ok bs
    → deserialize_tc_message bs
      ≡ ok (record body { neighbor_addresses = map as_read body.neighbor_addresses })
unfolding serialize_tc_message deserialize_tc_message
tc_message-read body bs fits h =
    let (addrs, e, f) = >>=-eq-ok (write_ips body.neighbor_addresses) _ h in
    let hi : ℕ = body.ansn / 256 % 256 in
    let lo : ℕ = body.ansn % 256 in
    let front : List ℕ = hi ∷ lo ∷ 0 ∷ 0 ∷ [] in
    let p : bs ≡ front ++ addrs = cc in
    let ansn : read_uint16 (front ++ addrs) 0 ≡ ok body.ansn =
      two_bytes hi lo (0 ∷ 0 ∷ addrs) ∙ ap ok (two_bytes-eq body.ansn fits) in
    let rest =
      rw append-nil at
        (slice-middle front addrs [] 4 (4 + length addrs) (omega arith) (omega arith)) in
    let n : 4 + length addrs ≡ length (front ++ addrs) = omega arith in
    rw p
      (ground (arith, ansn, rw n at rest, read_addresses-write_ips body.neighbor_addresses addrs e))

mid_message-read :
    (body : MidMessage) (bs : List ℕ)
    → write_ips body.addresses ≡ ok bs
    → deserialize_mid_message bs ≡ ok (record { addresses = map as_read body.addresses })
unfolding deserialize_mid_message
mid_message-read body bs h = rw (read_addresses-write_ips body.addresses bs h)

hna_message-read :
    (body : HnaMessage) (bs : List ℕ)
    → write_associations body.associations ≡ ok bs
    → deserialize_hna_message bs
      ≡ ok (record { associations = map association_as_read body.associations })
unfolding deserialize_hna_message
hna_message-read body bs h =
    let n = length-write_associations body.associations bs h in
    let q : length bs / 8 ≡ length body.associations = omega arith in
    rw q (
      ground
        (arith, read_associations-write_associations body.associations bs [] 0 h (omega arith)))

-- Two and three addresses one behind the other.
source_claim_message-read :
    (body : SourceClaimMessage) (bs : List ℕ)
    → serialize_source_claim_message body ≡ ok bs
    → deserialize_source_claim_message bs
      ≡ ok (record { source_ip = as_read body.source_ip; group_id = as_read body.group_id })
unfolding serialize_source_claim_message deserialize_source_claim_message
source_claim_message-read body bs h =
    let (s, e, f) = >>=-eq-ok (write_ip body.source_ip) _ h in
    let (g, e', f') = >>=-eq-ok (write_ip body.group_id) _ f in
    let (four, same) = write_ip_lem body.source_ip s e in
    let (four', same') = write_ip_lem body.group_id g e' in
    let p : bs ≡ s ++ g = cc in
    let at_s = slice-middle [] s g 0 4 (omega arith) (omega arith) in
    let at_g = rw append-nil at (slice-middle s g [] 4 8 (omega arith) (omega arith)) in
    rw p (ground (arith, at_s, at_g, length-append s g))

confirm_parent_message-read :
    (body : ConfirmParentMessage) (bs : List ℕ)
    → serialize_confirm_parent_message body ≡ ok bs
    → deserialize_confirm_parent_message bs
      ≡ ok (record {
        source_ip = as_read body.source_ip;
        group_id = as_read body.group_id;
        parent_ip = as_read body.parent_ip;
      })
unfolding serialize_confirm_parent_message deserialize_confirm_parent_message
confirm_parent_message-read body bs h =
    let (s, e, f) = >>=-eq-ok (write_ip body.source_ip) _ h in
    let (g, e', f') = >>=-eq-ok (write_ip body.group_id) _ f in
    let (r, e'', f'') = >>=-eq-ok (write_ip body.parent_ip) _ f' in
    let (four, same) = write_ip_lem body.source_ip s e in
    let (four', same') = write_ip_lem body.group_id g e' in
    let (four'', same'') = write_ip_lem body.parent_ip r e'' in
    let p : bs ≡ s ++ (g ++ r) = cc in
    let at_s = slice-middle [] s (g ++ r) 0 4 (omega arith) (omega arith) in
    let at_g = slice-middle s g r 4 8 (omega arith) (omega arith) in
    let at_r =
      rw (append-nil, append_assoc) at
        (slice-middle (s ++ g) r [] 8 12 (omega (arith, length-append s g))
          (omega (arith, length-append s g))) in
    rw p (ground (arith, at_s, at_g, at_r, length-append s (g ++ r), length-append g r))

-- A body that was written is read back by its type.
pub deserialize_body-serialize_body :
    (F : Float64) (body : Body) (t : ℕ) (bs : List ℕ)
    → HasType body t
    → BodyFits body
    → serialize_body F body ≡ ok bs
    → deserialize_body F t bs ≡ ok (body_as_read F body)
unfolding deserialize_body serialize_body
deserialize_body-serialize_body F (hello b) t bs ht fits h =
    rw ht (rw (deserialize_hello_message-serialize F b bs h))
deserialize_body-serialize_body F (tc b) t bs ht fits h = rw ht (rw (tc_message-read b bs fits h))
deserialize_body-serialize_body F (mid b) t bs ht fits h = rw ht (rw (mid_message-read b bs h))
deserialize_body-serialize_body F (hna b) t bs ht fits h = rw ht (rw (hna_message-read b bs h))
deserialize_body-serialize_body F (source_claim b) t bs ht fits h =
    rw ht (rw (source_claim_message-read b bs h))
deserialize_body-serialize_body F (confirm_parent b) t bs ht fits h =
    rw ht (rw (confirm_parent_message-read b bs h))
deserialize_body-serialize_body F (raw b) t bs ht fits h = absurd ht
