-- ===== src/Molsr/Tests.antt =====
-- The MOLSR component on concrete tables.
use mathlib.Core.Option
use olsr_go.Base.{◌≡◌, refl, true, ◌&&◌, some, [], ◌∷◌, if◌then◌else◌, codes, text_eq, ◌==◌}
use olsr_go.Base.Int.{pos, ◌+ℤ◌}
use olsr_go.Base.Map.{lookup, Entries}
use olsr_go.Molsr.Asked.{IsAskedFor, IsComplete, recalculate_mroutes-IsComplete}
use olsr_go.Base.Nested.{lookup3}
use olsr_go.Base.Changes.{replay}
use olsr_go.Net.{Ip, ip_string}
use olsr_go.Packet.{ConfirmParentMessage}
use olsr_go.Molsr.{
  ConfirmParentEntry, MulticastForwardingEntry, MolsrManager, notice, process_confirm_parent,
}
use olsr_go.Molsr.Mroutes.{NextHop, mfc_key, recalculate_mroutes}
use olsr_go.Molsr.Laws.{
  IsTable, forwarding, confirmed, lookup3-process_confirm_parent, replay-recalculate_mroutes,
}

-- The source is behind interface 1, every other node behind interface 2.
abbrev by_two_interfaces : NextHop
by_two_interfaces ip = some (ip, if ip == codes "s" then pos 1 else pos 2)

abbrev confirmation : ConfirmParentEntry
confirmation = record {
  source_ip = codes "s";
  group_id = codes "g";
  parent_ip = codes "10.0.0.1";
  child_ip = codes "c";
  expiration_time = pos 20;
}

abbrev stale : MulticastForwardingEntry
stale = record { source_ip = codes "s"; group_id = codes "g"; iif = pos 1; oifs = pos 3 ∷ [] }

abbrev one_confirmation : MolsrManager
one_confirmation = record {
  router_id = codes "10.0.0.1";
  source_claims = [];
  confirm_parents = (codes "g", (codes "s", (codes "c", confirmation) ∷ []) ∷ []) ∷ [];
  local_group = [];
  active_mfc = (codes "s:g", stale) ∷ [];
  has_iface_index_lookup = true;
}

abbrev confirms : ConfirmParentMessage
confirms = record {
  source_ip = 10 ∷ 0 ∷ 0 ∷ 7 ∷ [];
  group_id = 224 ∷ 1 ∷ 1 ∷ 1 ∷ [];
  parent_ip = 10 ∷ 0 ∷ 0 ∷ 1 ∷ [];
}

abbrev child : Ip
child = 10 ∷ 0 ∷ 0 ∷ 2 ∷ []

one_confirmation-IsTable : IsTable one_confirmation.active_mfc
unfolding lookup
one_confirmation-IsTable = ((refl, tt), (refl, tt))

confirm_parent_example :
    let after = process_confirm_parent (pos 10) child confirms (pos 30) one_confirmation in
    let ours = ip_string confirms.parent_ip == one_confirmation.router_id in
    let old =
      lookup3
        (codes "224.1.1.1")
        (codes "10.0.0.7")
        (codes "10.0.0.2")
        one_confirmation.confirm_parents in
    (lookup3 (codes "224.1.1.1") (codes "10.0.0.7") (codes "10.0.0.2") after.0.confirm_parents ≡ (
      if ours
        && (ip_string confirms.group_id == codes "224.1.1.1"
            && (ip_string confirms.source_ip == codes "10.0.0.7"
                && ip_string child == codes "10.0.0.2"))
      then some (confirmed confirms child (pos 10 +ℤ pos 30) old)
      else old))
    × (after.1 ≡ (if ours then notice (codes "confirm_parent_recv") else []))
confirm_parent_example =
    lookup3-process_confirm_parent (pos 10) child confirms (pos 30) one_confirmation
      (codes "224.1.1.1") (codes "10.0.0.7") (codes "10.0.0.2")

mroutes_example :
    let table = (recalculate_mroutes by_two_interfaces one_confirmation).0.active_mfc in
    Entries (IsAskedFor by_two_interfaces one_confirmation.confirm_parents) table
    × IsComplete by_two_interfaces one_confirmation.confirm_parents table
mroutes_example = recalculate_mroutes-IsComplete by_two_interfaces one_confirmation refl

replay_mroutes_example :
    Option.map forwarding (
      lookup (codes "s:g") (
        replay
          (λ e. mfc_key e.source_ip e.group_id)
          (recalculate_mroutes by_two_interfaces one_confirmation).1
          one_confirmation.active_mfc))
    ≡ Option.map forwarding
        (lookup (codes "s:g") (recalculate_mroutes by_two_interfaces one_confirmation).0.active_mfc)
replay_mroutes_example =
    replay-recalculate_mroutes by_two_interfaces one_confirmation one_confirmation.active_mfc
      one_confirmation-IsTable (λ k. refl) (codes "s:g")
