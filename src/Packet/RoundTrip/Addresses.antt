-- ===== src/Packet/RoundTrip/Addresses.antt =====
-- Lists of addresses and of HNA associations, written and read back.
use olsr_go.Base.{
  ℕ, ◌+◌, ◌*◌, ◌/◌, ◌≡◌, refl, ap, List, [], ◌∷◌, ◌++◌, map, some, length, length-append,
  length-drop, append_assoc, append-nil, arith, ok, >>=-eq-ok,
}
use olsr_go.Net.{Ip, to4}
use olsr_go.Packet.{HnaAssociation}
use olsr_go.Packet.Bytes.{slice-middle}
use olsr_go.Packet.Serialize.{write_ip, write_ips, write_associations}
use olsr_go.Packet.Deserialize.{read_ips, read_addresses, read_associations}
use olsr_go.Packet.RoundTrip.{as_read, association_as_read}

length-to4 : (ip b : Ip) → to4 ip ≡ some b → length b ≡ 4
unfolding to4
length-to4 ip b h = ground (arith, length-drop 12 ip)

pub write_ip_lem : (ip : Ip) (b : List ℕ) → write_ip ip ≡ ok b → (length b ≡ 4) × (as_read ip ≡ b)
unfolding write_ip
write_ip_lem ip b h = ground (arith, length-to4 ip b)

pub length-write_ips :
    (ips : List Ip) (bs : List ℕ) → write_ips ips ≡ ok bs → length bs ≡ 4 * length ips
unfolding write_ips
length-write_ips [] bs h = ground arith
length-write_ips (ip ∷ ips) bs h =
    let (b, e, f) = >>=-eq-ok (write_ip ip) _ h in
    let (r, g, k) = >>=-eq-ok (write_ips ips) _ f in
    ground (arith, write_ip_lem ip b, length-write_ips ips r, length-append b r)

write_ips-cons :
    (ip : Ip) (ips : List Ip) (bs : List ℕ)
    → write_ips (ip ∷ ips) ≡ ok bs
    → (b : List ℕ) × (r : List ℕ) × (length b ≡ 4)
      × (as_read ip ≡ b)
      × (write_ips ips ≡ ok r)
      × (bs ≡ b ++ r)
unfolding write_ips
write_ips-cons ip ips bs h =
    let (b, e, f) = (>>=-eq-ok (write_ip ip) _ h) in
    let (r, g, k) = (>>=-eq-ok (write_ips ips) _ f) in
    (b, r, (write_ip_lem ip b e).0, (write_ip_lem ip b e).1, g, cc)

read_ips-write_ips :
    (ips : List Ip) (bs pre rest : List ℕ) (i : ℕ)
    → write_ips ips ≡ ok bs
    → length pre ≡ i * 4
    → read_ips (length ips) i (pre ++ (bs ++ rest)) ≡ ok (map as_read ips)
unfolding read_ips
read_ips-write_ips [] bs pre rest i h n = refl
read_ips-write_ips (ip ∷ ips) bs pre rest i h n =
    let (b, r, four, same, g, p) = (write_ips-cons ip ips bs h) in
    let ih =
      read_ips-write_ips ips r (pre ++ b) rest (i + 1) g (omega (arith, length-append pre b)) in
    let now = slice-middle pre b (r ++ rest) (i * 4) ((i + 1) * 4) (omega arith) (omega arith) in
    rw (p, append_assoc b r rest, now, same) (rw (rw append_assoc at ih))

-- The addresses that were written are read back as their four bytes.
pub read_addresses-write_ips :
    (ips : List Ip) (bs : List ℕ) → write_ips ips ≡ ok bs → read_addresses bs ≡ ok (map as_read ips)
unfolding read_addresses
read_addresses-write_ips ips bs h =
    let n = length-write_ips ips bs h in
    let q : length bs / 4 ≡ length ips = omega arith in
    let read : read_ips (length ips) 0 bs ≡ ok (map as_read ips) =
      rw append-nil at (read_ips-write_ips ips bs [] [] 0 h (omega arith)) in
    rw q (ground (arith, read))

write_associations-cons :
    (a : HnaAssociation) (as' : List HnaAssociation) (bs : List ℕ)
    → write_associations (a ∷ as') ≡ ok bs
    → (b : List ℕ) × (m : List ℕ) × (r : List ℕ) × (length b ≡ 4)
      × (as_read a.address ≡ b)
      × (length m ≡ 4)
      × (as_read a.netmask.mask ≡ m)
      × (write_associations as' ≡ ok r)
      × (bs ≡ b ++ (m ++ r))
unfolding write_associations
write_associations-cons a as' bs h =
    let (b, e, f) = (>>=-eq-ok (write_ip a.address) _ h) in
    let (m, e', f') = (>>=-eq-ok (write_ip a.netmask.mask) _ f) in
    let (r, g, k) = (>>=-eq-ok (write_associations as') _ f') in
    (
      b,
      m,
      r,
      (write_ip_lem a.address b e).0,
      (write_ip_lem a.address b e).1,
      (write_ip_lem a.netmask.mask m e').0,
      (write_ip_lem a.netmask.mask m e').1,
      g,
      cc,
    )

pub length-write_associations :
    (as' : List HnaAssociation) (bs : List ℕ)
    → write_associations as' ≡ ok bs
    → length bs ≡ 8 * length as'
length-write_associations [] bs h = unfold write_associations in ground arith
length-write_associations (a ∷ as') bs h =
    let (b, m, r, four, _, four', _, g, p) = (write_associations-cons a as' bs h) in
    ground (
      arith,
      length-write_associations as' r,
      length-append b (m ++ r),
      length-append m r,
      ap (length {A = ℕ}) p,
    )

pub read_associations-write_associations :
    (as' : List HnaAssociation) (bs pre : List ℕ) (i : ℕ)
    → write_associations as' ≡ ok bs
    → length pre ≡ i * 8
    → read_associations (length as') i (pre ++ bs) ≡ ok (map association_as_read as')
unfolding read_associations
read_associations-write_associations [] bs pre i h n = refl
read_associations-write_associations (a ∷ as') bs pre i h n =
    let (b, m, r, four, same, four', same', g, p) = (write_associations-cons a as' bs h) in
    let ih =
      read_associations-write_associations as' r (pre ++ (b ++ m)) (i + 1) g
        (omega (arith, length-append pre (b ++ m), length-append b m)) in
    let addr = slice-middle pre b (m ++ r) (i * 8) (i * 8 + 4) (omega arith) (omega arith) in
    let mask =
      slice-middle (pre ++ b) m r (i * 8 + 4) (i * 8 + 8) (omega (arith, length-append pre b))
        (omega (arith, length-append pre b)) in
    rw (p, addr, rw append_assoc at mask, same, same') (rw (rw (append_assoc, append_assoc) at ih))
