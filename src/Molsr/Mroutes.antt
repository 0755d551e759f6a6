-- ===== src/Molsr/Mroutes.antt =====
-- internal/olsr/molsr.go: the multicast forwarding entries that the confirmations ask for, and the
-- events that bring the installed ones in line with them.
use olsr_go.Base.{
  Bool, true, false, not, ◌||◌, ◌&&◌, Option, none, some, List, [], ◌∷◌, ◌++◌, if◌then◌else◌, Text,
  text_eq, ◌==◌, length, nat_beq,
}
use olsr_go.Base.Int.{ℤ, int_eq}
use olsr_go.Base.Map.{GoMap, lookup, insert}
use olsr_go.Base.Nested.{is_empty}
use olsr_go.Base.Changes.{Change, changes}
use olsr_go.Neighbor.Mpr.{holds}
use olsr_go.Molsr.{ConfirmParentEntry, MulticastForwardingEntry, MolsrManager}

-- getUnicastNextHop, a callback: the next hop and the interface index, `none` for an error.
abbrev pub NextHop : Type 0
NextHop = Text → Option (Text × ℤ)

-- The loop over the children of a source: the outgoing interfaces, each once and not the incoming one.
unfoldable pub find_oifs :
    NextHop → ℤ → GoMap Text ConfirmParentEntry → GoMap ℤ Bool → List ℤ → List ℤ
find_oifs next_hop iif [] seen oifs = oifs
find_oifs next_hop iif ((child, entry) ∷ rest) seen oifs = elim (next_hop child) [
  | none ↦ find_oifs next_hop iif rest seen oifs
  | some (hop, index) ↦
      (let is_new = not (holds (lookup index seen)) && not (index == iif) in
        find_oifs next_hop iif rest (if is_new then insert index true seen else seen)
          (if is_new then oifs ++ index ∷ [] else oifs))
]

abbrev pub mfc_key : Text → Text → Text
mfc_key src grp = src ++ b':' ∷ grp

-- The entry of a source, by the answer on its next hop; a source without children or without a route
-- has none.
unfoldable pub add_source :
    NextHop
    → Text
    → Text
    → GoMap Text ConfirmParentEntry
    → Option (Text × ℤ)
    → GoMap Text MulticastForwardingEntry
    → GoMap Text MulticastForwardingEntry
unfolding find_oifs
add_source next_hop grp src children none new_mfc = new_mfc
add_source next_hop grp src children (some (hop, iif)) new_mfc =
    if is_empty children
    then new_mfc
    else insert (mfc_key src grp)
        (record {
          source_ip = src;
          group_id = grp;
          iif = iif;
          oifs = find_oifs next_hop iif children [] [];
        })
        new_mfc

unfoldable pub build_sources :
    NextHop
    → Text
    → GoMap Text (GoMap Text ConfirmParentEntry)
    → GoMap Text MulticastForwardingEntry
    → GoMap Text MulticastForwardingEntry
unfolding add_source
build_sources next_hop grp [] new_mfc = new_mfc
build_sources next_hop grp ((src, children) ∷ rest) new_mfc =
    build_sources next_hop grp rest (add_source next_hop grp src children (next_hop src) new_mfc)

unfoldable pub build_groups :
    NextHop
    → GoMap Text (GoMap Text (GoMap Text ConfirmParentEntry))
    → GoMap Text MulticastForwardingEntry
    → GoMap Text MulticastForwardingEntry
unfolding build_sources
build_groups next_hop [] new_mfc = new_mfc
build_groups next_hop ((grp, sources) ∷ rest) new_mfc =
    build_groups next_hop rest (build_sources next_hop grp sources new_mfc)

unfoldable pub build_new_mfc :
    NextHop
    → GoMap Text (GoMap Text (GoMap Text ConfirmParentEntry))
    → GoMap Text MulticastForwardingEntry
unfolding build_groups
build_new_mfc next_hop confirm_parents = build_groups next_hop confirm_parents []

-- The loop that compares the outgoing interfaces of two entries that have equally many.
abbrev pub some_oif_differs : List ℤ → List ℤ → Bool
some_oif_differs (v ∷ vs) (w ∷ ws) = not (w == v) || some_oif_differs vs ws
some_oif_differs _ _ = false

abbrev pub oifs_changed : List ℤ → List ℤ → Bool
oifs_changed old new = not (nat_beq (length old) (length new)) || some_oif_differs old new

abbrev pub mfc_changed : MulticastForwardingEntry → MulticastForwardingEntry → Bool
mfc_changed old new = not (old.iif == new.iif) || oifs_changed old.oifs new.oifs

-- The payload "delete_multicast" withdraws the entry, "add_multicast" installs it.
unfoldable pub sync_mfc_routes :
    GoMap Text MulticastForwardingEntry
    → GoMap Text MulticastForwardingEntry
    → List (Change MulticastForwardingEntry)
sync_mfc_routes active new_mfc = changes mfc_changed active new_mfc

unfoldable pub recalculate_mroutes :
    NextHop → MolsrManager → MolsrManager × List (Change MulticastForwardingEntry)
unfolding build_new_mfc sync_mfc_routes
recalculate_mroutes next_hop m =
    let new_mfc = build_new_mfc next_hop m.confirm_parents in
    if not m.has_iface_index_lookup
    then (m, [])
    else (record m { active_mfc = new_mfc }, sync_mfc_routes m.active_mfc new_mfc)
