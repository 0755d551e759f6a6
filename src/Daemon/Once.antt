-- ===== src/Daemon/Once.antt =====
-- cmd/olsrd/daemon.go: the duplicate records that processReceivedData leaves.
use mathlib.Core.Path.{subst}
use olsr_go.Base.{
  ℕ, ◌≡◌, refl, ◌∙◌, ap, inl, inr, true, false, some, [], ◌∷◌, arith, Text, text_eq, nat_eq, ◌==◌,
  ==_refl, Bool-cases, Option-cases, ok, >>=-eq-ok,
}
use olsr_go.Base.Map.{GoMap, lookup, insert}
use olsr_go.Base.Nested.{lookup2, inner}
use olsr_go.Base.Int.{◌+ℤ◌}
use olsr_go.Net.{Ip, Time, Duration, before, ip_string}
use olsr_go.Packet.{PacketHeader, Message}
use olsr_go.Packet.TimeVal.{Float64}
use olsr_go.Topology.{TopologyManager, is_duplicate, process_tc, process_mid}
use olsr_go.Topology.Laws.{is_duplicate_records}
use olsr_go.Daemon.{Daemon, Network, Result, unchanged, Readings}
use olsr_go.Daemon.Receive.{
  handle_hello, handle_tc, handle_mid, handle_hna, handle_source_claim, handle_confirm_parent,
  handle_message, is_own, checked_duplicate, forward, handle_new, process_message,
}

abbrev Records : Type 0
Records = GoMap Text (GoMap ℕ Time)

-- The handlers touch neither the duplicate records nor the configuration.
abbrev IsKept : Daemon → Daemon → Type 0
IsKept d e = (e.topo_mgr.duplicates ≡ d.topo_mgr.duplicates) × (e.cfg_mgr ≡ d.cfg_mgr)

module _ (r : Readings) (raddr : Ip) (msg : Message) (d : Daemon) where
  handle_hello_keeps : IsKept d (handle_hello r raddr msg d).daemon
  unfolding handle_hello
  handle_hello_keeps = ground arith

  handle_tc_keeps : IsKept d (handle_tc r msg d).daemon
  unfolding handle_tc process_tc
  handle_tc_keeps = ground arith

  handle_mid_keeps : IsKept d (handle_mid msg d).daemon
  unfolding handle_mid process_mid
  handle_mid_keeps = ground arith

  handle_hna_keeps : IsKept d (handle_hna r msg d).daemon
  unfolding handle_hna
  handle_hna_keeps = ground arith

  handle_source_claim_keeps : IsKept d (handle_source_claim r msg d).daemon
  unfolding handle_source_claim
  handle_source_claim_keeps = ground arith

  handle_confirm_parent_keeps : IsKept d (handle_confirm_parent r msg d).daemon
  unfolding handle_confirm_parent
  handle_confirm_parent_keeps = ground arith

  handle_message_keeps : IsKept d (handle_message r raddr msg d).daemon
  unfolding handle_message
  handle_message_keeps = ground (
    arith, handle_hello_keeps, handle_tc_keeps, handle_mid_keeps, handle_hna_keeps,
    handle_source_claim_keeps, handle_confirm_parent_keeps,
  )

-- Writing what is there changes nothing.
insert-lookup :
    (key : Text) (inside : GoMap ℕ Time) (m : Records)
    → lookup key m ≡ some inside
    → insert key inside m ≡ m
unfolding lookup insert
insert-lookup key inside [] found = cc
insert-lookup key inside ((k, v) ∷ m) found = elim (Bool-cases (k == key)) [
  | inl same ↦ ground (arith, found, same, text_eq.beq_iff k key)
  | inr other ↦ let ih = insert-lookup key inside m (rw other at found) in ground (arith, ih, other)
]

inner-lookup2 :
    (orig : Text) (s : ℕ) (m : Records) (t : Time)
    → lookup2 orig s m ≡ some t
    → insert orig (inner (lookup orig m)) m ≡ m
unfolding lookup
inner-lookup2 orig s m t found = elim (Option-cases (lookup orig m)) [
  | inl e ↦ absurd (ground (arith, e, found))
  | inr (inside, e) ↦ rw e (insert-lookup orig inside m e)
]

-- A live record answers for the message, and stays as it is.
is_duplicate_live :
    (now : Time) (o : Ip) (s : ℕ) (v : Duration) (tm : TopologyManager) (t : Time)
    → lookup2 (ip_string o) s tm.duplicates ≡ some t
    → before now t ≡ true
    → is_duplicate now o s v tm ≡ (tm, true)
unfolding is_duplicate
is_duplicate_live now o s v tm t found live =
    let at = inner-lookup2 (ip_string o) s tm.duplicates t found in
    rw (found, live) (ap (λ (x : Records). (record tm { duplicates = x }, true)) at)

-- The record of a message that was new, in the state that its handling leaves.
module _ (F : Float64) (net : Network) where
  handle_new_keeps :
      (r : Readings) (header : PacketHeader) (raddr : Ip) (msg : Message) (d : Daemon)
      {res : Result}
      → handle_new F net r header raddr msg d ≡ ok res
      → IsKept d res.daemon
  unfolding handle_new
  handle_new_keeps r header raddr msg d {res = res} done =
      let handled = handle_message r raddr msg d in
      let (sent, forwarded, e) =
        >>=-eq-ok (forward F net r header raddr msg handled.daemon) _ done in
      let kept = handle_message_keeps r raddr msg d in
      let same : record handled { sent = sent } ≡ res = cc in
      subst (λ (x : Daemon). IsKept d x) (ap (λ (x : Result). x.daemon) same) kept

  -- A message that was new and has been handled is ignored in the state that this leaves, while its
  -- validity time has not passed: another one of the same originator and sequence number, from whatever neighbour and
  -- with whatever else in it, changes nothing in the daemon, publishes nothing and is not forwarded.
  pub process_message_once :
      (r r' : Readings) (header header' : PacketHeader) (raddr raddr' : Ip) (msg msg' : Message)
      (d : Daemon) (res : Result)
      → is_own msg d ≡ false
      → (checked_duplicate r msg d).1 ≡ false
      → process_message F net r header raddr msg d ≡ ok res
      → ip_string msg'.header.originator_address ≡ ip_string msg.header.originator_address
      → msg'.header.seq_num ≡ msg.header.seq_num
      → before r'.checked (r.checked +ℤ msg.header.vtime) ≡ true
      → process_message F net r' header' raddr' msg' res.daemon ≡ ok (unchanged res.daemon)
  unfolding process_message
  process_message_once r r' header header' raddr raddr' msg msg' d res foreign new done same_orig
        same_seq live =
      let orig = msg.header.originator_address in
      let seq = msg.header.seq_num in
      let now = r.checked in
      let vtime = msg.header.vtime in
      let checked = is_duplicate now orig seq vtime d.topo_mgr in
      let handled : handle_new F net r header raddr msg (checked_duplicate r msg d).0 ≡ ok res =
        rw (foreign, new) at done in
      let kept = handle_new_keeps r header raddr msg (checked_duplicate r msg d).0 handled in
      let found : lookup2 (ip_string orig) seq checked.0.duplicates ≡ some (now +ℤ vtime) =
        is_duplicate_records now orig seq vtime d.topo_mgr (ip_string orig) seq new
        ∙ simp (==_refl (ip_string orig), ==_refl seq) refl in
      let orig' = msg'.header.originator_address in
      let found' : lookup2 (ip_string orig') msg'.header.seq_num res.daemon.topo_mgr.duplicates
          ≡ some (now +ℤ vtime) =
        rw (same_orig, same_seq, kept.0) found in
      let answer =
        is_duplicate_live r'.checked orig' msg'.header.seq_num msg'.header.vtime res.daemon.topo_mgr
          (now +ℤ vtime) found' live in
      let foreign' : is_own msg' res.daemon ≡ false = rw (same_orig, kept.1) foreign in
      rw (foreign', answer) refl
