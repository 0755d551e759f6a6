-- ===== src/Packet/RoundTrip/Hello.antt =====
-- The link messages of a HELLO, written and read back.
use olsr_go.Base.{
  ℕ, zero, suc, ◌+◌, ◌*◌, ◌/◌, ◌%◌, ◌≤◌, ◌<◌, ◌≡◌, refl, ap, ◌∙◌, List, [], ◌∷◌, ◌++◌, map, length,
  length-append, append_assoc, true, ltb, arith, ok, >>=-eq-ok,
}
use olsr_go.Packet.{HelloLinkMessage, HelloMessage}
use olsr_go.Net.{Ip}
use olsr_go.Packet.TimeVal.{Float64, encode_time_val}
use olsr_go.Packet.Bytes.{index, slice, slice-middle, slice-append, index-append}
use olsr_go.Packet.Serialize.{write_ips, write_link, write_links, serialize_hello_message}
use olsr_go.Packet.Deserialize.{
  read_uint16, read_link, read_links, read_addresses, deserialize_hello_message,
}
use olsr_go.Packet.RoundTrip.{link_as_read, hello_as_read}
use olsr_go.Packet.RoundTrip.Addresses.{read_addresses-write_ips}

pub read_uint16-append :
    (pre ys : List ℕ) (i k : ℕ) → i ≡ length pre + k → read_uint16 (pre ++ ys) i ≡ read_uint16 ys k
unfolding read_uint16
read_uint16-append pre ys i k e = rw (slice-append pre ys i (i + 2) k (k + 2) e (omega arith))

pub two_bytes : (hi lo : ℕ) (ys : List ℕ) → read_uint16 (hi ∷ lo ∷ ys) 0 ≡ ok (hi * 256 + lo)
unfolding read_uint16 slice
two_bytes hi lo ys = ground arith

-- A size written as two bytes.
pub two_bytes-eq : (n : ℕ) → n < 65536 → n / 256 % 256 * 256 + n % 256 ≡ n
two_bytes-eq n h = omega arith

-- Four header bytes, then the addresses; the size is that of both.
write_link_lem :
    (lm : HelloLinkMessage) (b : List ℕ)
    → write_link lm ≡ ok b
    → (addrs : List ℕ) × (hi : ℕ) × (lo : ℕ) × (write_ips lm.neighbor_addresses ≡ ok addrs)
      × (hi * 256 + lo ≡ 4 + length addrs)
      × (b ≡ lm.link_code ∷ 0 ∷ hi ∷ lo ∷ addrs)
unfolding write_link
write_link_lem lm b h =
    let (addrs, e, f) = >>=-eq-ok (write_ips lm.neighbor_addresses) _ h in
    let n : ℕ = suc (suc (suc (suc (length addrs)))) in
    let fits : n < 65536 = ground arith in
    (addrs, n / 256 % 256, n % 256, e, two_bytes-eq n fits ∙ omega arith, ground arith)

module _ (code hi lo : ℕ) (addrs rest pre : List ℕ) (size : hi * 256 + lo ≡ 4 + length addrs) where
  abbrev tail_bytes : List ℕ
  tail_bytes = code ∷ 0 ∷ hi ∷ lo ∷ (addrs ++ rest)

  length-pre_tail : length (pre ++ tail_bytes) ≡ length pre + 4 + length addrs + length rest
  length-pre_tail = omega (arith, length-append pre tail_bytes, length-append addrs rest)

  link_code_read : index (pre ++ tail_bytes) (length pre) ≡ ok code
  link_code_read = index-append pre tail_bytes (length pre) 0 (omega arith) ∙ unfold index in refl

  link_size_read : read_uint16 (pre ++ tail_bytes) (length pre + 2) ≡ ok (4 + length addrs)
  link_size_read =
      read_uint16-append pre tail_bytes (length pre + 2) 2 refl
      ∙ read_uint16-append (code ∷ 0 ∷ []) (hi ∷ lo ∷ (addrs ++ rest)) 2 0 (omega arith)
      ∙ two_bytes hi lo (addrs ++ rest)
      ∙ ap ok size

  addr_data_read :
      slice (pre ++ tail_bytes) (length pre + 4) (length pre + (4 + length addrs)) ≡ ok addrs
  addr_data_read =
      slice-append pre tail_bytes (length pre + 4) (length pre + (4 + length addrs)) 4
        (4 + length addrs) refl refl
      ∙ slice-middle (code ∷ 0 ∷ hi ∷ lo ∷ []) addrs rest 4 (4 + length addrs) (omega arith)
          (omega arith)

  read_link_bytes :
      (ips : List Ip)
      → read_addresses addrs ≡ ok ips
      → read_link (pre ++ tail_bytes) (length pre)
        ≡ ok (record { link_code = code; neighbor_addresses = ips }, 4 + length addrs)
  unfolding read_link
  read_link_bytes ips h =
      ground (arith, length-pre_tail, link_code_read, link_size_read, addr_data_read)

read_link-write_link :
    (lm : HelloLinkMessage) (b pre rest : List ℕ)
    → write_link lm ≡ ok b
    → (4 ≤ length b)
      × (read_link (pre ++ (b ++ rest)) (length pre) ≡ ok (link_as_read lm, length b))
read_link-write_link lm b pre rest h =
    let (addrs, hi, lo, e, size, shape) = write_link_lem lm b h in
    let ips = read_addresses-write_ips lm.neighbor_addresses addrs e in
    rw shape (
      omega arith,
      read_link_bytes lm.link_code hi lo addrs rest pre size _ ips
          ∙ ap (λ (n : ℕ). ok (link_as_read lm, n)) (omega arith),
    )

write_links-cons :
    (lm : HelloLinkMessage) (lms : List HelloLinkMessage) (bs : List ℕ)
    → write_links (lm ∷ lms) ≡ ok bs
    → (b : List ℕ) × (r : List ℕ) × (write_link lm ≡ ok b)
      × (write_links lms ≡ ok r)
      × (bs ≡ b ++ r)
unfolding write_links
write_links-cons lm lms bs h =
    let (b, e, f) = >>=-eq-ok (write_link lm) _ h in
    let (r, g, k) = >>=-eq-ok (write_links lms) _ f in (b, r, e, g, cc)

read_links-write_links :
    (lms : List HelloLinkMessage) (bs pre : List ℕ) (fuel : ℕ)
    → write_links lms ≡ ok bs
    → length bs < fuel
    → read_links fuel (pre ++ bs) (length pre) ≡ ok (map link_as_read lms)
unfolding read_links
read_links-write_links lms bs pre zero h enough = absurd (omega arith)
read_links-write_links [] bs pre (suc fuel) h enough =
    unfold write_links in ground (arith, length-append pre bs, h)
read_links-write_links (lm ∷ lms) bs pre (suc fuel) h enough =
    let (b, r, e, g, p) = write_links-cons lm lms bs h in
    let (four, now) = read_link-write_link lm b pre r e in
    let n : length bs ≡ length b + length r = rw p (length-append b r) in
    let ih = read_links-write_links lms r (pre ++ b) fuel g (omega arith) in
    let ih' = rw (append_assoc, length-append) at ih in
    let inside : ltb (length pre) (length (pre ++ bs)) ≡ true =
      ground (arith, length-append pre bs) in
    rw inside (rw (p, now, ih'))

pub deserialize_hello_message-serialize :
    (F : Float64) (body : HelloMessage) (bs : List ℕ)
    → serialize_hello_message F body ≡ ok bs
    → deserialize_hello_message F bs ≡ ok (hello_as_read F body)
unfolding serialize_hello_message deserialize_hello_message
deserialize_hello_message-serialize F body bs h =
    let (links, e, f) = >>=-eq-ok (write_links body.link_messages) _ h in
    let c = encode_time_val F body.htime in
    let front : List ℕ = 0 ∷ 0 ∷ c ∷ body.willingness ∷ [] in
    let p : bs ≡ front ++ links = cc in
    let all =
      read_links-write_links body.link_messages links front (length (front ++ links)) e
        (omega arith) in
    rw p (unfold index in ground (arith, all))
