-- ===== src/Hna/Laws.antt =====
-- internal/olsr/hna.go: the entries of the tables before and after a method.
use olsr_go.Base.{
  ◌≡◌, refl, ◌∙◌, inl, inr, Bool, false, ◌&&◌, not, Option, none, some, List, [], ◌∷◌,
  if◌then◌else◌, Bool-cases, ==_refl, Text, text_eq, ◌==◌,
}
use olsr_go.Base.Int.{◌+ℤ◌}
use olsr_go.Base.Map.{GoMap, kept}
use olsr_go.Base.Nested.{lookup2, lookup2-insert2, lookup2-sweep, IsNested}
use olsr_go.Net.{Ip, Time, Duration, ip_string}
use olsr_go.Net.Cidr.{IpNet, cidr}
use olsr_go.Packet.{HnaAssociation, HnaMessage}
use olsr_go.Hna.{
  HnaEntry, HnaManager, update_entry, process_hna_entry, process_hna_entries, process_hna,
  entry_expired, age_out,
}

-- The network that the message advertises under the given text, the first where there are several.
abbrev pub advertised : Text → List HnaAssociation → Option IpNet
advertised key [] = none
advertised key (assoc ∷ assocs) =
    if cidr assoc.netmask == key then some assoc.netmask else advertised key assocs

-- What an HNA message does to the entry of an advertised network.
abbrev pub refreshed : Text → Time → IpNet → Option HnaEntry → Option HnaEntry
refreshed gw exp net none =
    some (record { gateway_ip = gw; network = net; expiration_time = exp; is_local = false })
refreshed gw exp net (some entry) = some (record entry { expiration_time = exp })

abbrev pub refreshed_by : Text → Time → Option IpNet → Option HnaEntry → Option HnaEntry
refreshed_by gw exp none o = o
refreshed_by gw exp (some net) o = refreshed gw exp net o

update_entry_lem :
    (gw : Text) (exp : Time) (assoc : HnaAssociation) (key g : Text)
    (s : GoMap Text (GoMap Text HnaEntry) × Bool) (o : Option HnaEntry)
    → lookup2 key g (update_entry gw exp assoc o s).0 ≡ (
        if cidr assoc.netmask == key && gw == g
        then refreshed gw exp assoc.netmask o
        else lookup2 key g s.0)
unfolding update_entry
update_entry_lem gw exp assoc key g s none = lookup2-insert2 (cidr assoc.netmask) key gw g _ s.0
update_entry_lem gw exp assoc key g s (some entry) =
    lookup2-insert2 (cidr assoc.netmask) key gw g _ s.0

process_hna_entry_lem :
    (gw : Text) (exp : Time) (assoc : HnaAssociation) (key g : Text)
    (s : GoMap Text (GoMap Text HnaEntry) × Bool)
    → lookup2 key g (process_hna_entry gw exp assoc s).0 ≡ (
        if cidr assoc.netmask == key && gw == g
        then refreshed gw exp assoc.netmask (lookup2 (cidr assoc.netmask) gw s.0)
        else lookup2 key g s.0)
unfolding process_hna_entry
process_hna_entry_lem gw exp assoc key g s =
    update_entry_lem gw exp assoc key g s (lookup2 (cidr assoc.netmask) gw s.0)

-- A second refresh changes nothing, whatever network it names.
refreshed_twice :
    (gw : Text) (exp : Time) (net : IpNet) (n : Option IpNet) (o : Option HnaEntry)
    → refreshed_by gw exp n (refreshed gw exp net o) ≡ refreshed gw exp net o
refreshed_twice gw exp net none o = refl
refreshed_twice gw exp net (some n) none = refl
refreshed_twice gw exp net (some n) (some entry) = refl

process_hna_entry_same :
    (gw : Text) (exp : Time) (assoc : HnaAssociation) (key : Text)
    → cidr assoc.netmask ≡ key
    → (s : GoMap Text (GoMap Text HnaEntry) × Bool)
    → lookup2 key gw (process_hna_entry gw exp assoc s).0
      ≡ refreshed gw exp assoc.netmask (lookup2 key gw s.0)
process_hna_entry_same gw exp assoc key p s =
    let e = process_hna_entry_lem gw exp assoc key gw s in
    let e1 = rw p at e in rw (==_refl key, ==_refl gw) at e1

process_hna_entries_own :
    (gw : Text) (exp : Time) (assocs : List HnaAssociation) (key : Text)
    (s : GoMap Text (GoMap Text HnaEntry) × Bool)
    → lookup2 key gw (process_hna_entries gw exp assocs s).0
      ≡ refreshed_by gw exp (advertised key assocs) (lookup2 key gw s.0)
unfolding process_hna_entries
process_hna_entries_own gw exp [] key s = refl
process_hna_entries_own gw exp (assoc ∷ assocs) key s =
    let s' = process_hna_entry gw exp assoc s in
    process_hna_entries_own gw exp assocs key s' ∙ elim (Bool-cases (cidr assoc.netmask == key)) [
      | inl same ↦
          let p : cidr assoc.netmask ≡ key = (text_eq.beq_iff (cidr assoc.netmask) key).0 same in
          rw (same, process_hna_entry_same gw exp assoc key p s)
            (refreshed_twice gw exp assoc.netmask (advertised key assocs) (lookup2 key gw s.0))
      | inr other ↦
          let e : lookup2 key gw s'.0 ≡ lookup2 key gw s.0 =
            process_hna_entry_lem gw exp assoc key gw s ∙ rw other in
          rw (other, e)
    ]

process_hna_entries_other :
    (gw : Text) (exp : Time) (assocs : List HnaAssociation) (key g : Text)
    (s : GoMap Text (GoMap Text HnaEntry) × Bool)
    → (gw == g) ≡ false
    → lookup2 key g (process_hna_entries gw exp assocs s).0 ≡ lookup2 key g s.0
unfolding process_hna_entries
process_hna_entries_other gw exp [] key g s other = refl
process_hna_entries_other gw exp (assoc ∷ assocs) key g s other =
    process_hna_entries_other gw exp assocs key g (process_hna_entry gw exp assoc s) other
    ∙ process_hna_entry_lem gw exp assoc key g s
    ∙ elim (Bool-cases (cidr assoc.netmask == key)) [
      | inl same ↦ rw (same, other)
      | inr different ↦ rw different
    ]

-- After an HNA message each network that it advertises has an entry for the originator with the new
-- expiration time: a new entry for a new network, and the old one, its other fields as they were,
-- for a known network. No other entry changes.
pub lookup2-process_hna :
    (now : Time) (originator : Ip) (hna : HnaMessage) (vtime : Duration) (h : HnaManager)
    (key g : Text)
    → lookup2 key g (process_hna now originator hna vtime h).0.hna_set ≡ (
        if ip_string originator == g
        then refreshed_by g
            (now +ℤ vtime)
            (advertised key hna.associations)
            (lookup2 key g h.hna_set)
        else lookup2 key g h.hna_set)
unfolding process_hna
lookup2-process_hna now originator hna vtime h key g =
    elim (Bool-cases (ip_string originator == g)) [
      | inl same ↦
          let p : ip_string originator ≡ g = (text_eq.beq_iff (ip_string originator) g).0 same in
          rw (same, p)
            (process_hna_entries_own g (now +ℤ vtime) hna.associations key (h.hna_set, false))
      | inr other ↦ rw other (
          process_hna_entries_other (ip_string originator) (now +ℤ vtime) hna.associations key g
            (h.hna_set, false) other)
    ]

-- In well-formed tables AgeOut removes exactly the entries whose expiration time has passed.
pub hna_set-age_out :
    (now : Time) (h : HnaManager)
    → IsNested h.hna_set
    → (key gw : Text)
    → lookup2 key gw (age_out now h).0.hna_set
      ≡ kept (λ g entry. not (entry_expired now entry)) gw (lookup2 key gw h.hna_set)
unfolding age_out
hna_set-age_out now h v key gw = lookup2-sweep (entry_expired now) key gw h.hna_set v
