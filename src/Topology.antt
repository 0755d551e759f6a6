-- ===== src/Topology.antt =====
-- internal/olsr/topology.go: the tables of the TopologyManager and its methods.
pub mod Laws
pub mod Aliases
pub mod Reach
pub mod Tests
use olsr_go.Base.{
  ℕ, ◌+◌, ◌-◌, ◌%◌, Bool, true, false, ◌&&◌, ◌||◌, not, Option, none, some, List, [], ◌∷◌, ltb, leb,
  if◌then◌else◌, Text, codes, text_eq, nat_eq, ◌==◌, map, ◌++◌,
}
use olsr_go.Base.Int.{◌+ℤ◌}
use olsr_go.Base.Map.{GoMap, lookup, insert, delete}
use olsr_go.Base.Nested.{lookup2, insert2, inner, sweep, any_inner, all_values}
use olsr_go.EventBus.{Event, topology_update}
use olsr_go.Net.{Ip, Time, Duration, after, before, ip_string}
use olsr_go.Packet.{TcMessage, MidMessage}

pub record TopologyTuple : Type 0 where
  pub dest_ip : Text
  pub last_ip : Text
  pub seq_num : ℕ
  pub expiration_time : Time

pub record TopologyManager : Type 0 where
  pub topology : GoMap Text (GoMap Text TopologyTuple)
  pub duplicates : GoMap Text (GoMap ℕ Time)
  pub mid_map : GoMap Text (List Text)
  pub reverse_mid_map : GoMap Text Text

abbrev pub new_topology_manager : TopologyManager
new_topology_manager = record { topology = []; duplicates = []; mid_map = []; reverse_mid_map = [] }

abbrev pub is_live : Time → Option Time → Bool
is_live now none = false
is_live now (some exp) = before now exp

-- A call makes the inner map of the originator where it is missing, and records the message
-- unless a live record of it is there.
unfoldable pub is_duplicate : Time → Ip → ℕ → Duration → TopologyManager → TopologyManager × Bool
is_duplicate now originator seq_num vtime tm =
    let orig = ip_string originator in
    let made = insert orig (inner (lookup orig tm.duplicates)) tm.duplicates in
    if is_live now (lookup2 orig seq_num tm.duplicates)
    then (record tm { duplicates = made }, true)
    else (record tm { duplicates = insert2 orig seq_num (now +ℤ vtime) made }, false)

-- tc.ANSN >= tuple.SeqNum || tuple.SeqNum-tc.ANSN > 32768, on uint16
abbrev pub is_newer : ℕ → ℕ → Bool
is_newer ansn seq = leb seq ansn || ltb 32768 ((seq + 65536 - ansn) % 65536)

-- The loop body of ProcessTC, on the tuple the table holds: the table, and whether it was updated.
unfoldable pub update_tuple :
    Text
    → ℕ
    → Time
    → Text
    → Option TopologyTuple
    → GoMap Text (GoMap Text TopologyTuple) × Bool
    → GoMap Text (GoMap Text TopologyTuple) × Bool
update_tuple last ansn exp dest none s = (
  insert2 dest last
      (record { dest_ip = dest; last_ip = last; seq_num = ansn; expiration_time = exp }) s.0,
  true,
)
update_tuple last ansn exp dest (some tuple) s =
    if is_newer ansn tuple.seq_num
    then (insert2 dest last (record tuple { seq_num = ansn; expiration_time = exp }) s.0, true)
    else s

unfoldable pub process_tc_entry :
    Text
    → ℕ
    → Time
    → Text
    → GoMap Text (GoMap Text TopologyTuple) × Bool
    → GoMap Text (GoMap Text TopologyTuple) × Bool
process_tc_entry last ansn exp dest s = update_tuple last ansn exp dest (lookup2 dest last s.0) s

unfoldable pub process_tc_entries :
    Text
    → ℕ
    → Time
    → List Ip
    → GoMap Text (GoMap Text TopologyTuple) × Bool
    → GoMap Text (GoMap Text TopologyTuple) × Bool
process_tc_entries last ansn exp [] s = s
process_tc_entries last ansn exp (addr ∷ addrs) s =
    process_tc_entries last ansn exp addrs (process_tc_entry last ansn exp (ip_string addr) s)

unfoldable pub process_tc :
    Time → Ip → TcMessage → Duration → TopologyManager → TopologyManager × List (Event Text)
unfolding process_tc_entries process_tc_entry
process_tc now originator tc vtime tm =
    let last = ip_string originator in
    let (topology, updated) =
      process_tc_entries last tc.ansn (now +ℤ vtime) tc.neighbor_addresses (tm.topology, false) in
    (
      record tm { topology = topology },
      if updated then record { ev_type = topology_update; payload = last } ∷ [] else [],
    )

unfoldable pub remove_aliases : List Text → GoMap Text Text → GoMap Text Text
remove_aliases [] m = m
remove_aliases (alias ∷ aliases) m = remove_aliases aliases (delete alias m)

unfoldable pub add_aliases : Text → List Text → GoMap Text Text → GoMap Text Text
add_aliases primary [] m = m
add_aliases primary (alias ∷ aliases) m = add_aliases primary aliases (insert alias primary m)

abbrev pub old_aliases : Text → TopologyManager → List Text
old_aliases primary tm = elim (lookup primary tm.mid_map) [ none ↦ [] | some aliases ↦ aliases ]

unfoldable pub process_mid : Ip → MidMessage → TopologyManager → TopologyManager × List (Event Text)
process_mid originator mid tm =
    let primary = ip_string originator in
    let cleared = remove_aliases (old_aliases primary tm) tm.reverse_mid_map in
    let aliases = map ip_string mid.addresses in
    (
      record tm {
        reverse_mid_map = add_aliases primary aliases cleared;
        mid_map = insert primary aliases tm.mid_map;
      },
      record { ev_type = topology_update; payload = codes "mid" } ∷ [],
    )

unfoldable pub get_primary_address : Text → TopologyManager → Text
get_primary_address ip tm = elim (lookup ip tm.reverse_mid_map) [
  | none ↦ ip
  | some primary ↦ primary
]

abbrev pub tuple_expired : Time → TopologyTuple → Bool
tuple_expired now t = after now t.expiration_time

unfoldable pub age_out : Time → TopologyManager → TopologyManager × List (Event Text) × Bool
age_out now tm =
    let changed = any_inner (tuple_expired now) tm.topology in
    (
      record tm {
        topology = sweep (tuple_expired now) tm.topology;
        duplicates = sweep (after now) tm.duplicates;
      },
      (if changed then record { ev_type = topology_update; payload = codes "aging" } ∷ [] else []),
      changed,
    )

unfoldable pub get_topology : TopologyManager → List TopologyTuple
get_topology tm = all_values tm.topology

-- GetMIDMap, a copy.
abbrev pub get_mid_map : TopologyManager → GoMap Text (List Text)
get_mid_map tm = tm.mid_map
