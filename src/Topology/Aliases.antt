-- ===== src/Topology/Aliases.antt =====
-- internal/olsr/topology.go: the aliases that MID messages give to a node.
use olsr_go.Base.{
  ◌≡◌, refl, ◌∙◌, inl, inr, none, some, List, [], ◌∷◌, if◌then◌else◌, Bool-cases, ==_refl, arith,
  Text, text_eq, nat_eq, ◌==◌, map,
}
use olsr_go.Base.Map.{GoMap, lookup, insert, delete, lookup-insert, lookup-delete}
use olsr_go.Net.{Ip, ip_string}
use olsr_go.Packet.{MidMessage}
use olsr_go.Topology.{
  TopologyManager, remove_aliases, add_aliases, old_aliases, process_mid, get_primary_address,
}
use olsr_go.Topology.Laws.{member}

add_aliases_lem :
    (primary : Text) (aliases : List Text) (ip : Text) (m : GoMap Text Text)
    → lookup ip (add_aliases primary aliases m)
      ≡ (if member ip aliases then some primary else lookup ip m)
unfolding add_aliases
add_aliases_lem primary [] ip m = refl
add_aliases_lem primary (a ∷ aliases) ip m =
    let ih = add_aliases_lem primary aliases ip (insert a primary m) in
    ground (arith, ih, lookup-insert a ip primary m)

remove_aliases_lem :
    (aliases : List Text) (ip : Text) (m : GoMap Text Text)
    → lookup ip (remove_aliases aliases m) ≡ (if member ip aliases then none else lookup ip m)
unfolding remove_aliases
remove_aliases_lem [] ip m = refl
remove_aliases_lem (a ∷ aliases) ip m =
    let ih = remove_aliases_lem aliases ip (delete a m) in ground (arith, ih, lookup-delete a ip m)

-- One MID, by the aliases that the table has of its originator.
resolved_after :
    (originator : Ip) (mid : MidMessage) (tm : TopologyManager) (ip : Text)
    → get_primary_address ip (process_mid originator mid tm).0 ≡ (
        if member ip (map ip_string mid.addresses)
        then ip_string originator
        else if member ip (old_aliases (ip_string originator) tm)
        then ip
        else get_primary_address ip tm)
unfolding get_primary_address process_mid
resolved_after originator mid tm ip =
    let primary = ip_string originator in
    ground (
      arith,
      add_aliases_lem primary (map ip_string mid.addresses) ip
          (remove_aliases (old_aliases primary tm) tm.reverse_mid_map),
      remove_aliases_lem (old_aliases primary tm) ip tm.reverse_mid_map,
    )

old_aliases-process_mid :
    (originator : Ip) (mid : MidMessage) (tm : TopologyManager) (o : Text)
    → old_aliases o (process_mid originator mid tm).0
      ≡ (if ip_string originator == o then map ip_string mid.addresses else old_aliases o tm)
unfolding process_mid
old_aliases-process_mid originator mid tm o =
    rw (lookup-insert, old_aliases)
      (elim (Bool-cases (ip_string originator == o)) [
        | inl same ↦ rw same refl
        | inr other ↦ rw other refl
      ])

-- After two MIDs of one originator, one directly after the other, the aliases of the second resolve to
-- the originator, and those of the first that the second leaves out to themselves. Of the other
-- addresses, those that the table had as its aliases before resolve to themselves, and the rest as
-- before. The table then has the aliases of the second as the originator's, and those of every other
-- originator as before.
pub get_primary_address-process_mid :
    (originator : Ip) (first second : MidMessage) (tm : TopologyManager) (ip o : Text)
    → let after_both = (process_mid originator second (process_mid originator first tm).0).0 in
      (get_primary_address ip after_both ≡ (
        if member ip (map ip_string second.addresses)
        then ip_string originator
        else if member ip (map ip_string first.addresses)
        then ip
        else if member ip (old_aliases (ip_string originator) tm)
        then ip
        else get_primary_address ip tm))
      × (old_aliases o after_both ≡ (
          if ip_string originator == o then map ip_string second.addresses else old_aliases o tm))
get_primary_address-process_mid originator first second tm ip o =
    let once = (process_mid originator first tm).0 in
    let recorded : old_aliases (ip_string originator) once ≡ map ip_string first.addresses =
      old_aliases-process_mid originator first tm (ip_string originator)
      ∙ rw (==_refl (ip_string originator)) refl in
    (
      resolved_after originator second once ip
          ∙ rw (recorded, resolved_after originator first tm ip)
              (elim (Bool-cases (member ip (map ip_string first.addresses))) [
                | inl given ↦ rw given refl
                | inr not_given ↦ rw not_given refl
              ]),
      old_aliases-process_mid originator second once o
          ∙ rw (old_aliases-process_mid originator first tm o)
              (elim (Bool-cases (ip_string originator == o)) [
                | inl same ↦ rw same refl
                | inr other ↦ rw other refl
              ]),
    )
