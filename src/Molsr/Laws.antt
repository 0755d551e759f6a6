-- ===== src/Molsr/Laws.antt =====
-- internal/olsr/molsr.go: the tables after a message, and the multicast events replayed.
use olsr_go.Base.{
  ◌≡◌, refl, ap, ◌∙◌, codes, inl, inr, false, ◌&&◌, Option, none, some, List, [], ◌∷◌,
  if◌then◌else◌, Bool-cases, arith, Text, text_eq, ◌==◌,
}
use mathlib.Core.Option
use olsr_go.Base.Int.{ℤ, ◌+ℤ◌, int_eq}
use olsr_go.Base.Map.{GoMap, lookup, IsMap, Entries, insert-IsMap, insert-Entries}
use olsr_go.Base.Nested.{lookup3, lookup3-insert3, is_empty}
use olsr_go.Base.Changes.{replay, replay-changes}
use olsr_go.Net.{Ip, Time, Duration, ip_string}
use olsr_go.Packet.{ConfirmParentMessage}
use olsr_go.Molsr.{
  ConfirmParentEntry, MulticastForwardingEntry, MolsrManager, notice, entry_of,
  process_confirm_parent,
}
use olsr_go.Molsr.Mroutes.{
  NextHop, mfc_key, add_source, build_sources, build_groups, build_new_mfc, oifs_changed,
  mfc_changed, sync_mfc_routes, recalculate_mroutes,
}

-- The entry that a confirmation is to leave: a new one, or the one that is there until the new time.
abbrev pub confirmed :
    ConfirmParentMessage → Ip → Time → Option ConfirmParentEntry → ConfirmParentEntry
confirmed cp originator until none = record {
  source_ip = ip_string cp.source_ip;
  group_id = ip_string cp.group_id;
  parent_ip = ip_string cp.parent_ip;
  child_ip = ip_string originator;
  expiration_time = until;
}
confirmed cp originator until (some e) = record {
  source_ip = e.source_ip;
  group_id = e.group_id;
  parent_ip = e.parent_ip;
  child_ip = e.child_ip;
  expiration_time = until;
}

entry_of-confirmed :
    (cp : ConfirmParentMessage) (originator : Ip) (until : Time) (o : Option ConfirmParentEntry)
    → entry_of
        (ip_string cp.source_ip)
        (ip_string cp.group_id)
        (ip_string cp.parent_ip)
        (ip_string originator)
        until
        o
      ≡ confirmed cp originator until o
entry_of-confirmed cp originator until none = refl
entry_of-confirmed cp originator until (some e) = refl

-- Where the keys are equal, the entry that was there is that of either.
written_at :
    (grp g src s child c : Text) (t : GoMap Text (GoMap Text (GoMap Text ConfirmParentEntry)))
    (cp : ConfirmParentMessage) (originator : Ip) (until : Time)
    → (if grp == g && (src == s && child == c)
        then some (
            entry_of
              (ip_string cp.source_ip)
              (ip_string cp.group_id)
              (ip_string cp.parent_ip)
              (ip_string originator)
              until
              (lookup3 grp src child t))
        else lookup3 g s c t)
      ≡ (if grp == g && (src == s && child == c)
          then some (confirmed cp originator until (lookup3 g s c t))
          else lookup3 g s c t)
written_at grp g src s child c t cp originator until =
    elim (Bool-cases (grp == g && (src == s && child == c))) [
      | inl same ↦
          let p : grp ≡ g = ground (arith, same, text_eq.beq_iff grp g) in
          let q : src ≡ s = ground (arith, same, text_eq.beq_iff src s) in
          let r : child ≡ c = ground (arith, same, text_eq.beq_iff child c) in
          rw same (
            ap some (
              entry_of-confirmed cp originator until (lookup3 grp src child t) ∙ rw (p, q, r) refl))
      | inr other ↦ rw other refl
    ]

-- A confirmation that names another parent changes no entry and publishes nothing. One that names this
-- router publishes that it was received, and gives the entry of its group, its source and its sender the
-- time that its validity ends: an entry that was there keeps its other fields, and a missing one is made
-- of the addresses of the message; no other entry changes.
pub lookup3-process_confirm_parent :
    (now : Time) (originator : Ip) (cp : ConfirmParentMessage) (vtime : Duration) (m : MolsrManager)
    (g s c : Text)
    → let after = process_confirm_parent now originator cp vtime m in
      let ours = ip_string cp.parent_ip == m.router_id in
      (lookup3 g s c after.0.confirm_parents ≡ (
        if ours
          && (ip_string cp.group_id == g
              && (ip_string cp.source_ip == s && ip_string originator == c))
        then some (confirmed cp originator (now +ℤ vtime) (lookup3 g s c m.confirm_parents))
        else lookup3 g s c m.confirm_parents))
      × (after.1 ≡ (if ours then notice (codes "confirm_parent_recv") else []))
unfolding process_confirm_parent
lookup3-process_confirm_parent now originator cp vtime m g s c =
    let grp = ip_string cp.group_id in
    let src = ip_string cp.source_ip in
    let child = ip_string originator in
    elim (Bool-cases (ip_string cp.parent_ip == m.router_id)) [
      | inl ours ↦ rw ours (
        lookup3-insert3 grp g src s child c _ m.confirm_parents
            ∙ written_at grp g src s child c m.confirm_parents cp originator (now +ℤ vtime),
        refl,
      )
      | inr other ↦ rw other (refl, refl)
    ]

-- The table that the router keeps has its entries under their own source and group.
abbrev pub IsKeyed : Text → MulticastForwardingEntry → Type 0
IsKeyed k e = mfc_key e.source_ip e.group_id ≡ k

abbrev pub IsTable : GoMap Text MulticastForwardingEntry → Type 0
IsTable t = IsMap t × Entries IsKeyed t

add_source-IsTable :
    (next_hop : NextHop) (grp src : Text) (children : GoMap Text ConfirmParentEntry)
    (hop : Option (Text × ℤ)) (t : GoMap Text MulticastForwardingEntry)
    → IsTable t
    → IsTable (add_source next_hop grp src children hop t)
unfolding add_source
add_source-IsTable next_hop grp src children none t h = h
add_source-IsTable next_hop grp src children (some (hop, iif)) t h =
    elim (Bool-cases (is_empty children)) [
      | inl empty ↦ rw empty h
      | inr full ↦ rw full (
        insert-IsMap (mfc_key src grp) _ t h.0,
        insert-Entries IsKeyed (mfc_key src grp) _ t refl h.1,
      )
    ]

build_sources-IsTable :
    (next_hop : NextHop) (grp : Text) (sources : GoMap Text (GoMap Text ConfirmParentEntry))
    (t : GoMap Text MulticastForwardingEntry)
    → IsTable t
    → IsTable (build_sources next_hop grp sources t)
unfolding build_sources
build_sources-IsTable next_hop grp [] t h = h
build_sources-IsTable next_hop grp ((src, children) ∷ rest) t h =
    build_sources-IsTable next_hop grp rest _
      (add_source-IsTable next_hop grp src children (next_hop src) t h)

build_groups-IsTable :
    (next_hop : NextHop) (groups : GoMap Text (GoMap Text (GoMap Text ConfirmParentEntry)))
    (t : GoMap Text MulticastForwardingEntry)
    → IsTable t
    → IsTable (build_groups next_hop groups t)
unfolding build_groups
build_groups-IsTable next_hop [] t h = h
build_groups-IsTable next_hop ((grp, sources) ∷ rest) t h =
    build_groups-IsTable next_hop rest _ (build_sources-IsTable next_hop grp sources t h)

-- What of an entry is forwarded by.
abbrev pub forwarding : MulticastForwardingEntry → ℤ × List ℤ
forwarding e = (e.iif, e.oifs)

same_oifs : (old new : List ℤ) → oifs_changed old new ≡ false → old ≡ new
same_oifs [] [] h = refl
same_oifs [] (w ∷ ws) h = absurd (ground (arith, h))
same_oifs (v ∷ vs) [] h = absurd (ground (arith, h))
same_oifs (v ∷ vs) (w ∷ ws) h =
    let p : w ≡ v = ground (arith, h, int_eq.beq_iff w v) in
    let q : vs ≡ ws = same_oifs vs ws (ground (arith, h)) in rw (p, q)

same_forwarding :
    (a b : MulticastForwardingEntry) → mfc_changed a b ≡ false → forwarding a ≡ forwarding b
same_forwarding a b h =
    let p : a.iif ≡ b.iif = ground (arith, h, int_eq.beq_iff a.iif b.iif) in
    let q : a.oifs ≡ b.oifs = same_oifs a.oifs b.oifs (ground (arith, h)) in rw (p, q)

-- A multicast table that forwards as the router's active entries say, still does so when the events
-- of a RecalculateMroutes are applied to it and the router has its new entries.
pub replay-recalculate_mroutes :
    (next_hop : NextHop) (m : MolsrManager) (kernel : GoMap Text MulticastForwardingEntry)
    → IsTable m.active_mfc
    → ((k : Text)
        → Option.map forwarding (lookup k kernel) ≡ Option.map forwarding (lookup k m.active_mfc))
    → (k : Text)
    → Option.map forwarding (
        lookup k
          (replay (λ e. mfc_key e.source_ip e.group_id) (recalculate_mroutes next_hop m).1 kernel))
      ≡ Option.map forwarding (lookup k (recalculate_mroutes next_hop m).0.active_mfc)
unfolding recalculate_mroutes build_new_mfc sync_mfc_routes
replay-recalculate_mroutes next_hop m kernel h follows k =
    elim (Bool-cases m.has_iface_index_lookup) [
      | inl there ↦
          let (hn, kn) = build_groups-IsTable next_hop m.confirm_parents [] (tt, tt) in
          rw there (
            replay-changes (λ e. mfc_key e.source_ip e.group_id) forwarding mfc_changed m.active_mfc
              (build_groups next_hop m.confirm_parents []) kernel h.0 hn h.1 kn same_forwarding
              follows k)
      | inr missing ↦ rw missing (unfold replay in follows k)
    ]
