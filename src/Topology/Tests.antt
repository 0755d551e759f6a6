-- ===== src/Topology/Tests.antt =====
-- The topology component on concrete tables.
use olsr_go.Base.{
  ℕ, ◌≡◌, refl, true, false, ◌&&◌, not, some, [], ◌∷◌, if◌then◌else◌, codes, text_eq, nat_eq,
  nat_beq, text_beq, ltb, ◌==◌, map, arith, ◌+◌,
}
use olsr_go.Base.Int.{pos, ◌+ℤ◌}
use olsr_go.Base.Map.{lookup, insert}
use olsr_go.Base.Nested.{lookup2, insert2}
use olsr_go.Net.{Ip, before, ip_string}
use olsr_go.Packet.{TcMessage, MidMessage}
use olsr_go.Topology.{
  TopologyTuple, TopologyManager, is_duplicate, is_newer, update_tuple, process_tc, old_aliases,
  process_mid, get_primary_address,
}
use olsr_go.Topology.Aliases.{get_primary_address-process_mid}
use olsr_go.Topology.Laws.{
  member, IsUint16, refreshed, more_recent, is_duplicate_twice, lookup2-process_tc,
  is_newer_exceptions,
}

abbrev router : Ip
router = 10 ∷ 0 ∷ 0 ∷ 1 ∷ []

abbrev other_router : Ip
other_router = 10 ∷ 0 ∷ 0 ∷ 2 ∷ []

abbrev seq : ℕ
seq = 4

abbrev tuple : TopologyTuple
tuple = record {
  dest_ip = codes "10.0.0.2";
  last_ip = codes "10.0.0.1";
  seq_num = 7;
  expiration_time = pos 50;
}

abbrev one_tuple : TopologyManager
one_tuple = record {
  topology = (codes "10.0.0.2", (codes "10.0.0.1", tuple) ∷ []) ∷ [];
  duplicates = (codes "10.0.0.1", (3, pos 40) ∷ []) ∷ [];
  mid_map = (codes "10.0.0.1", codes "10.0.1.1" ∷ []) ∷ [];
  reverse_mid_map = (codes "10.0.1.1", codes "10.0.0.1") ∷ [];
}

abbrev advertises_two : TcMessage
advertises_two = record { ansn = 8; neighbor_addresses = other_router ∷ [] }

abbrev new_alias : MidMessage
new_alias = record { addresses = (10 ∷ 0 ∷ 1 ∷ 9 ∷ []) ∷ [] }

-- The newer number refreshes the tuple.
tuple_is_refreshed :
    lookup2
      (codes "10.0.0.2")
      (codes "10.0.0.1")
      (process_tc (pos 10) router advertises_two (pos 30) one_tuple).0.topology
    ≡ some (record tuple { seq_num = 8; expiration_time = pos 40 })
unfolding process_tc ip_string lookup text_beq update_tuple insert2 insert ◌+ℤ◌
tuple_is_refreshed = refl

not_seen : (is_duplicate (pos 10) router seq (pos 30) one_tuple).1 ≡ false
unfolding is_duplicate lookup text_beq ip_string
not_seen = refl

duplicate_example :
    (is_duplicate
      (pos 20)
      router
      seq
      (pos 30)
      (is_duplicate (pos 10) router seq (pos 30) one_tuple).0).1
    ≡ (if ip_string router == ip_string router && seq == seq
        then before (pos 20) (pos 10 +ℤ pos 30)
        else (is_duplicate (pos 20) router seq (pos 30) one_tuple).1)
duplicate_example =
    is_duplicate_twice (pos 10) (pos 20) router router seq seq (pos 30) (pos 30) one_tuple not_seen

one_tuple-IsUint16 : IsUint16 (lookup2 (codes "10.0.0.2") (ip_string router) one_tuple.topology)
unfolding lookup olsr_go.Base.text_beq ip_string
one_tuple-IsUint16 t e = (let p : tuple.seq_num ≡ t.seq_num = cc in omega (arith, p))

process_tc_example :
    lookup2
      (codes "10.0.0.2")
      (codes "10.0.0.1")
      (process_tc (pos 10) router advertises_two (pos 30) one_tuple).0.topology
    ≡ (if member (codes "10.0.0.2") (map ip_string advertises_two.neighbor_addresses)
          && ip_string router == codes "10.0.0.1"
        then refreshed
            (codes "10.0.0.2")
            (ip_string router)
            8
            (pos 10 +ℤ pos 30)
            (lookup2 (codes "10.0.0.2") (ip_string router) one_tuple.topology)
        else lookup2 (codes "10.0.0.2") (codes "10.0.0.1") one_tuple.topology)
process_tc_example =
    lookup2-process_tc (pos 10) router advertises_two (pos 30) one_tuple (codes "10.0.0.2")
      (codes "10.0.0.1") (omega arith) one_tuple-IsUint16

-- 40000 is accepted against 2, although 2 is the more recent of them.
is_newer_example : is_newer 40000 2 ≡ (
    if ltb (2 + 32767) 40000
    then true
    else if nat_beq 2 (40000 + 32768)
    then false
    else not (more_recent 2 40000))
is_newer_example = is_newer_exceptions 40000 2 (ground arith) (ground arith)

-- The second MID of the router leaves the alias of the first out.
abbrev no_alias : MidMessage
no_alias = record { addresses = [] }

process_mid_example :
    let after_both = (process_mid router no_alias (process_mid router new_alias one_tuple).0).0 in
    (get_primary_address (codes "10.0.1.1") after_both ≡ (
      if member (codes "10.0.1.1") (map ip_string no_alias.addresses)
      then ip_string router
      else if member (codes "10.0.1.1") (map ip_string new_alias.addresses)
      then codes "10.0.1.1"
      else if member (codes "10.0.1.1") (old_aliases (ip_string router) one_tuple)
      then codes "10.0.1.1"
      else get_primary_address (codes "10.0.1.1") one_tuple))
    × (old_aliases (codes "10.0.0.1") after_both ≡ (
        if ip_string router == codes "10.0.0.1"
        then map ip_string no_alias.addresses
        else old_aliases (codes "10.0.0.1") one_tuple))
process_mid_example =
    get_primary_address-process_mid router new_alias no_alias one_tuple (codes "10.0.1.1")
      (codes "10.0.0.1")
