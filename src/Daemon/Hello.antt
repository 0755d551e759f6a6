-- ===== src/Daemon/Hello.antt =====
-- cmd/olsrd/daemon.go: sendHello, and internal/olsr/neighbor.go: what ProcessHello makes of its HELLOs.
use olsr_go.Base.{
  ◌≡◌, refl, ◌∙◌, inl, inr, false, List, [], ◌∷◌, ◌++◌, Text, text_eq, Bool-cases, Option-cases,
}
use olsr_go.Net.{Ip, Time, Duration}
use olsr_go.Neighbor.{asymmetric, symmetric, lost, NeighborManager}
use olsr_go.Neighbor.Mpr.{new_mprs, recalculate_mprs}
use olsr_go.Neighbor.Ops.{check_mpr_selection, hello_tables, hello_changes_state, process_hello}
use olsr_go.Neighbor.Aging.{get_links}
use olsr_go.Daemon.Send.{addresses_in, hello_link_messages, link_message, hello_message}
use olsr_go.Daemon.{Daemon}

mpr_messages :
    (name : Text) (a b c : List Ip)
    → check_mpr_selection name (link_message 6 a ++ (link_message 1 b ++ link_message 3 c)) ≡ false
unfolding check_mpr_selection
mpr_messages name [] [] [] = refl
mpr_messages name [] [] (z ∷ c) = refl
mpr_messages name [] (y ∷ b) [] = refl
mpr_messages name [] (y ∷ b) (z ∷ c) = refl
mpr_messages name (x ∷ a) [] [] = refl
mpr_messages name (x ∷ a) [] (z ∷ c) = refl
mpr_messages name (x ∷ a) (y ∷ b) [] = refl
mpr_messages name (x ∷ a) (y ∷ b) (z ∷ c) = refl

recalculate_mprs_selectors :
    (now : Time) (nm : NeighborManager) → (recalculate_mprs now nm).mpr_selectors ≡ nm.mpr_selectors
unfolding recalculate_mprs
recalculate_mprs_selectors now nm = elim (Option-cases (new_mprs now nm)) [
  | inl e ↦ rw (e, recalculate_mprs) refl
  | inr (m, e) ↦ rw (e, recalculate_mprs) refl
]

-- A HELLO that the daemon makes selects no receiver as its MPR: whatever the receiver's state and
-- address, the HELLO leaves its MPR selectors as they were.
pub hello_message_selects_none :
    (d : Daemon) (now now' : Time) (sender originator : Ip) (vtime : Duration)
    (nm : NeighborManager)
    → (process_hello now now' sender originator (hello_message d) vtime nm).0.mpr_selectors
      ≡ nm.mpr_selectors
unfolding process_hello hello_tables hello_message hello_link_messages
hello_message_selects_none d now now' sender originator vtime nm =
    let none_selected =
      mpr_messages nm.router_id (addresses_in symmetric (get_links d.neigh_mgr))
        (addresses_in asymmetric (get_links d.neigh_mgr))
        (addresses_in lost (get_links d.neigh_mgr)) in
    let tables : (hello_tables now sender originator (hello_message d) vtime nm).mpr_selectors
        ≡ nm.mpr_selectors =
      rw none_selected refl in
    elim (Bool-cases (hello_changes_state sender (hello_message d) nm)) [
      | inl changes ↦ rw changes (
          recalculate_mprs_selectors now'
            (hello_tables now sender originator (hello_message d) vtime nm)
          ∙ tables)
      | inr same ↦ rw same tables
    ]
