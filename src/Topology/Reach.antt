-- ===== src/Topology/Reach.antt =====
-- The states that the methods of the TopologyManager lead to from NewTopologyManager.
use olsr_go.Base.{
  ℕ, inl, inr, Bool, false, Option, none, some, List, [], ◌∷◌, Bool-cases, Option-cases, Text,
  text_eq, nat_eq,
}
use olsr_go.Base.Int.{◌+ℤ◌}
use olsr_go.Base.Map.{GoMap, lookup, insert, IsMap, Entries-lookup, insert-IsMap, insert-Entries}
use olsr_go.Base.Nested.{inner, lookup2, IsNested, insert2-IsNested, sweep-IsNested}
use olsr_go.Net.{Ip, Time, Duration, after, ip_string}
use olsr_go.Packet.{TcMessage, MidMessage}
use olsr_go.Topology.{
  TopologyTuple, TopologyManager, new_topology_manager, is_live, is_duplicate, is_newer,
  update_tuple, process_tc_entry, process_tc_entries, process_tc, process_mid, tuple_expired,
  age_out,
}
use olsr_go.Topology.Laws.{IsValid}

pub data Reachable : TopologyManager → Type 0 where
  start : Reachable new_topology_manager
  after_is_duplicate :
      {tm : TopologyManager} (now : Time) (o : Ip) (s : ℕ) (v : Duration)
      → Reachable tm
      → Reachable (is_duplicate now o s v tm).0
  after_tc :
      {tm : TopologyManager} (now : Time) (o : Ip) (tc : TcMessage) (v : Duration)
      → Reachable tm
      → Reachable (process_tc now o tc v tm).0
  after_mid :
      {tm : TopologyManager} (o : Ip) (mid : MidMessage)
      → Reachable tm
      → Reachable (process_mid o mid tm).0
  after_age_out : {tm : TopologyManager} (now : Time) → Reachable tm → Reachable (age_out now tm).0

made-IsNested :
    (orig : Text) (m : GoMap Text (GoMap ℕ Time))
    → IsNested m
    → IsNested (insert orig (inner (lookup orig m)) m)
made-IsNested orig m (h, hs) = (
  insert-IsMap orig _ m h,
  insert-Entries (λ k n. IsMap n) orig _ m
      (elim (Option-cases (lookup orig m)) [
        | inl q ↦ rw q tt
        | inr (n, q) ↦ rw q (Entries-lookup (λ k n. IsMap n) orig n m hs q)
      ])
      hs,
)

is_duplicate-IsValid :
    (now : Time) (o : Ip) (s : ℕ) (v : Duration) (tm : TopologyManager)
    → IsValid tm
    → IsValid (is_duplicate now o s v tm).0
unfolding is_duplicate
is_duplicate-IsValid now o s v tm valid =
    let made = made-IsNested (ip_string o) tm.duplicates valid.duplicate_maps in
    elim (Bool-cases (is_live now (lookup2 (ip_string o) s tm.duplicates))) [
      | inl live ↦ rw live (record { topology_maps = valid.topology_maps; duplicate_maps = made })
      | inr not_live ↦ rw not_live (record {
        topology_maps = valid.topology_maps;
        duplicate_maps = insert2-IsNested (ip_string o) s (now +ℤ v) _ made;
      })
    ]

update_tuple-IsNested :
    (last : Text) (ansn : ℕ) (exp : Time) (dest : Text) (o : Option TopologyTuple)
    (s : GoMap Text (GoMap Text TopologyTuple) × Bool)
    → IsNested s.0
    → IsNested (update_tuple last ansn exp dest o s).0
unfolding update_tuple
update_tuple-IsNested last ansn exp dest none s h = insert2-IsNested dest last _ s.0 h
update_tuple-IsNested last ansn exp dest (some t) s h =
    elim (Bool-cases (is_newer ansn t.seq_num)) [
      | inl newer ↦ rw newer (insert2-IsNested dest last _ s.0 h)
      | inr stale ↦ rw stale h
    ]

process_tc_entries-IsNested :
    (last : Text) (ansn : ℕ) (exp : Time) (addrs : List Ip)
    (s : GoMap Text (GoMap Text TopologyTuple) × Bool)
    → IsNested s.0
    → IsNested (process_tc_entries last ansn exp addrs s).0
unfolding process_tc_entries process_tc_entry
process_tc_entries-IsNested last ansn exp [] s h = h
process_tc_entries-IsNested last ansn exp (addr ∷ addrs) s h =
    process_tc_entries-IsNested last ansn exp addrs _
      (update_tuple-IsNested last ansn exp (ip_string addr) _ s h)

-- In every state that the methods lead to from a new manager, no destination, no originator and no
-- key below them stands twice in the topology table and in the duplicate table.
pub Reachable-IsValid : (tm : TopologyManager) → Reachable tm → IsValid tm
unfolding process_tc process_mid age_out
Reachable-IsValid _ start = record { topology_maps = (tt, tt); duplicate_maps = (tt, tt) }
Reachable-IsValid _ (after_is_duplicate {tm} now o s v r) =
    is_duplicate-IsValid now o s v tm (Reachable-IsValid tm r)
Reachable-IsValid _ (after_tc {tm} now o tc v r) =
    let valid = Reachable-IsValid tm r in
    record {
      topology_maps =
          process_tc_entries-IsNested (ip_string o) tc.ansn (now +ℤ v) tc.neighbor_addresses
            (tm.topology, false) valid.topology_maps;
      duplicate_maps = valid.duplicate_maps;
    }
Reachable-IsValid _ (after_mid {tm} o mid r) =
    let valid = Reachable-IsValid tm r in
    record { topology_maps = valid.topology_maps; duplicate_maps = valid.duplicate_maps }
Reachable-IsValid _ (after_age_out {tm} now r) =
    let valid = Reachable-IsValid tm r in
    record {
      topology_maps = sweep-IsNested (tuple_expired now) tm.topology valid.topology_maps;
      duplicate_maps = sweep-IsNested (after now) tm.duplicates valid.duplicate_maps;
    }
