-- ===== src/Packet/Writes.antt =====
-- internal/olsr/packet.go: no serializer panics or loops: each returns bytes or an error.
use olsr_go.Base.{
  List, [], ◌∷◌, Bool, true, false, if◌then◌else◌, Option-cases, inl, inr, ◌≢◌, refl, Error,
  Outcome, ok, err, panic, out_of_fuel, ◌>>=◌,
}
use olsr_go.Net.{Ip, to4}
use olsr_go.Packet.{
  HelloLinkMessage, HnaAssociation, Body, hello, tc, mid, hna, source_claim, confirm_parent, raw,
  Message, Packet,
}
use olsr_go.Packet.TimeVal.{Float64}
use olsr_go.Packet.Serialize.{
  write_ip, write_ips, write_link, write_links, write_associations, serialize_source_claim_message,
  serialize_confirm_parent_message, serialize_tc_message, serialize_hello_message, serialize_body,
  serialize_message, serialize_messages, serialize_packet,
}

-- The call comes to a value or to an error value.
pub record Returns {A : Type 0} (r : Outcome A) : Type 0 where
  pub no_panic : r ≢ panic
  pub has_fuel : r ≢ out_of_fuel

Returns-ok : {A : Type 0} (a : A) → Returns (ok a)
Returns-ok a = record { no_panic = λ e. cc; has_fuel = λ e. cc }

Returns-err : {A : Type 0} (x : Error) → Returns {A = A} (err x)
Returns-err x = record { no_panic = λ e. cc; has_fuel = λ e. cc }

Returns-bind :
    {A B : Type 0} (m : Outcome A) (f : A → Outcome B)
    → Returns m
    → ((a : A) → Returns (f a))
    → Returns (m >>= f)
Returns-bind (ok a) f h k = k a
Returns-bind (err e) f h k = Returns-err e
Returns-bind panic f h k = absurd (h.no_panic refl)
Returns-bind out_of_fuel f h k = absurd (h.has_fuel refl)

Returns-if :
    {A : Type 0} (b : Bool) (r s : Outcome A) → Returns r → Returns s → Returns (if b then r else s)
Returns-if true r s hr hs = hr
Returns-if false r s hr hs = hs

Returns-write_ip : (ip : Ip) → Returns (write_ip ip)
unfolding write_ip
Returns-write_ip ip = elim (Option-cases (to4 ip)) [
  | inl bad ↦ rw (bad, write_ip) (Returns-err _)
  | inr (ip4, e) ↦ rw (e, write_ip) (Returns-ok _)
]

Returns-write_ips : (ips : List Ip) → Returns (write_ips ips)
unfolding write_ips
Returns-write_ips [] = Returns-ok _
Returns-write_ips (ip ∷ ips) =
    Returns-bind (write_ip ip) _ (Returns-write_ip ip)
      λ b. Returns-bind (write_ips ips) _ (Returns-write_ips ips) λ rest. Returns-ok _

Returns-write_link : (lm : HelloLinkMessage) → Returns (write_link lm)
unfolding write_link
Returns-write_link lm =
    Returns-bind (write_ips lm.neighbor_addresses) _ (Returns-write_ips lm.neighbor_addresses)
      λ addrs. Returns-if _ _ _ (Returns-err _) (Returns-ok _)

Returns-write_links : (lms : List HelloLinkMessage) → Returns (write_links lms)
unfolding write_links
Returns-write_links [] = Returns-ok _
Returns-write_links (lm ∷ lms) =
    Returns-bind (write_link lm) _ (Returns-write_link lm)
      λ b. Returns-bind (write_links lms) _ (Returns-write_links lms) λ rest. Returns-ok _

Returns-write_associations : (as' : List HnaAssociation) → Returns (write_associations as')
unfolding write_associations
Returns-write_associations [] = Returns-ok _
Returns-write_associations (a ∷ as') =
    Returns-bind (write_ip a.address) _ (Returns-write_ip a.address) λ addr.
      Returns-bind (write_ip a.netmask.mask) _ (Returns-write_ip a.netmask.mask) λ mask.
        Returns-bind (write_associations as') _ (Returns-write_associations as')
          λ rest. Returns-ok _

module _ (F : Float64) where
  Returns-serialize_body : (body : Body) → Returns (serialize_body F body)
  unfolding serialize_body serialize_hello_message serialize_tc_message
      serialize_source_claim_message serialize_confirm_parent_message
  Returns-serialize_body (hello b) =
      Returns-bind (write_links b.link_messages) _ (Returns-write_links b.link_messages)
        λ links. Returns-ok _
  Returns-serialize_body (tc b) =
      Returns-bind (write_ips b.neighbor_addresses) _ (Returns-write_ips b.neighbor_addresses)
        λ addrs. Returns-ok _
  Returns-serialize_body (mid b) = Returns-write_ips b.addresses
  Returns-serialize_body (hna b) = Returns-write_associations b.associations
  Returns-serialize_body (source_claim b) =
      Returns-bind (write_ip b.source_ip) _ (Returns-write_ip b.source_ip) λ src.
        Returns-bind (write_ip b.group_id) _ (Returns-write_ip b.group_id) λ grp. Returns-ok _
  Returns-serialize_body (confirm_parent b) =
      Returns-bind (write_ip b.source_ip) _ (Returns-write_ip b.source_ip) λ src.
        Returns-bind (write_ip b.group_id) _ (Returns-write_ip b.group_id) λ grp.
          Returns-bind (write_ip b.parent_ip) _ (Returns-write_ip b.parent_ip)
            λ parent. Returns-ok _
  Returns-serialize_body (raw bs) = Returns-err _

  Returns-serialize_message : (msg : Message) → Returns (serialize_message F msg)
  unfolding serialize_message
  Returns-serialize_message msg =
      Returns-bind (write_ip msg.header.originator_address) _
        (Returns-write_ip msg.header.originator_address)
        λ orig.
          Returns-bind (serialize_body F msg.body) _ (Returns-serialize_body msg.body)
            λ body. Returns-if _ _ _ (Returns-err _) (Returns-ok _)

  Returns-serialize_messages : (msgs : List Message) → Returns (serialize_messages F msgs)
  unfolding serialize_messages
  Returns-serialize_messages [] = Returns-ok _
  Returns-serialize_messages (msg ∷ msgs) =
      Returns-bind (serialize_message F msg) _ (Returns-serialize_message msg) λ b.
        Returns-bind (serialize_messages F msgs) _ (Returns-serialize_messages msgs)
          λ rest. Returns-ok _

  pub Returns-serialize_packet : (p : Packet) → Returns (serialize_packet F p)
  unfolding serialize_packet
  Returns-serialize_packet p =
      Returns-bind (serialize_messages F p.messages) _ (Returns-serialize_messages p.messages)
        λ msgs. Returns-if _ _ _ (Returns-err _) (Returns-ok _)
