-- ===== src/Topology/Laws.antt =====
-- internal/olsr/topology.go: the entries of the tables before and after a method.
use olsr_go.Base.{
  ℕ, ◌+◌, ◌-◌, ◌<◌, ◌≡◌, refl, sym, ap, ◌∙◌, inl, inr, Bool, true, false, ◌&&◌, ◌||◌, not, Option,
  none, some, List, [], ◌∷◌, ltb, leb, nat_beq, if◌then◌else◌, Bool-cases, ==_refl, arith, Text,
  text_eq, nat_eq, ◌==◌, map,
}
use olsr_go.Base.Int.{◌+ℤ◌}
use olsr_go.Base.Map.{GoMap, lookup, insert, lookup-insert}
use olsr_go.Base.Nested.{inner, lookup2, lookup2-insert2, IsNested}
use olsr_go.Net.{Ip, Time, Duration, before, ip_string}
use olsr_go.Packet.{TcMessage}
use olsr_go.Topology.{
  TopologyTuple, TopologyManager, is_live, is_duplicate, is_newer, update_tuple, process_tc_entry,
  process_tc_entries, process_tc,
}

-- The list of addresses reads as a list of texts that holds the given one.
abbrev pub member : Text → List Text → Bool
member ip [] = false
member ip (t ∷ ts) = t == ip || member ip ts

pub record IsValid (tm : TopologyManager) : Type 0 where
  pub topology_maps : IsNested tm.topology
  pub duplicate_maps : IsNested tm.duplicates

-- Making the inner map of an originator changes no entry.
lookup2-made :
    (orig a : Text) (s : ℕ) (m : GoMap Text (GoMap ℕ Time))
    → lookup2 a s (insert orig (inner (lookup orig m)) m) ≡ lookup2 a s m
lookup2-made orig a s m =
    rw (lookup-insert, inner)
      (elim (Bool-cases (orig == a)) [
        | inl same ↦
            let p : lookup orig m ≡ lookup a m =
              ap (λ (x : Text). lookup x m) ((text_eq.beq_iff orig a).0 same) in
            rw (same, p)
        | inr other ↦ rw other
      ])

pub is_duplicate_answer :
    (now : Time) (o : Ip) (s : ℕ) (v : Duration) (tm : TopologyManager)
    → (is_duplicate now o s v tm).1 ≡ is_live now (lookup2 (ip_string o) s tm.duplicates)
unfolding is_duplicate
is_duplicate_answer now o s v tm =
    elim (Bool-cases (is_live now (lookup2 (ip_string o) s tm.duplicates))) [
      | inl live ↦ rw live
      | inr not_live ↦ rw not_live
    ]

pub is_duplicate_records :
    (now : Time) (o : Ip) (s : ℕ) (v : Duration) (tm : TopologyManager) (a : Text) (t : ℕ)
    → (is_duplicate now o s v tm).1 ≡ false
    → lookup2 a t (is_duplicate now o s v tm).0.duplicates
      ≡ (if ip_string o == a && s == t then some (now +ℤ v) else lookup2 a t tm.duplicates)
unfolding is_duplicate
is_duplicate_records now o s v tm a t h =
    let not_live : is_live now (lookup2 (ip_string o) s tm.duplicates) ≡ false =
      sym (is_duplicate_answer now o s v tm) ∙ h in
    rw not_live (
      lookup2-insert2 (ip_string o) a s t (now +ℤ v) _
      ∙ ap (λ (x : Option Time). if ip_string o == a && s == t then some (now +ℤ v) else x)
          (lookup2-made (ip_string o) a t tm.duplicates))

-- A message that was not a duplicate is one in the state that this leaves, until its validity
-- time has passed; the answer on every other message is as it was.
pub is_duplicate_twice :
    (now now' : Time) (originator o : Ip) (seq s : ℕ) (vtime v : Duration) (tm : TopologyManager)
    → (is_duplicate now originator seq vtime tm).1 ≡ false
    → (is_duplicate now' o s v (is_duplicate now originator seq vtime tm).0).1 ≡ (
        if ip_string originator == ip_string o && seq == s
        then before now' (now +ℤ vtime)
        else (is_duplicate now' o s v tm).1)
is_duplicate_twice now now' originator o seq s vtime v tm h =
    is_duplicate_answer now' o s v _
    ∙ ap (is_live now') (is_duplicate_records now originator seq vtime tm (ip_string o) s h)
    ∙ elim (Bool-cases (ip_string originator == ip_string o && seq == s)) [
      | inl same ↦ rw same
      | inr other ↦ rw other (sym (is_duplicate_answer now' o s v tm))
    ]

-- What the loop body makes of the tuple that it finds.
abbrev updated_tuple : Text → Text → ℕ → Time → Option TopologyTuple → Option TopologyTuple
updated_tuple dest last ansn exp none =
    some (record { dest_ip = dest; last_ip = last; seq_num = ansn; expiration_time = exp })
updated_tuple dest last ansn exp (some t) =
    some (if is_newer ansn t.seq_num then record t { seq_num = ansn; expiration_time = exp } else t)

update_tuple_lem :
    (last : Text) (ansn : ℕ) (exp : Time) (dest d l : Text)
    (s : GoMap Text (GoMap Text TopologyTuple) × Bool) (o : Option TopologyTuple)
    → lookup2 dest last s.0 ≡ o
    → lookup2 d l (update_tuple last ansn exp dest o s).0
      ≡ (if dest == d && last == l then updated_tuple dest last ansn exp o else lookup2 d l s.0)
unfolding update_tuple
update_tuple_lem last ansn exp dest d l s none e = lookup2-insert2 dest d last l _ s.0
update_tuple_lem last ansn exp dest d l s (some t) e = elim (Bool-cases (is_newer ansn t.seq_num)) [
  | inl newer ↦ rw newer (lookup2-insert2 dest d last l _ s.0)
  | inr stale ↦ rw stale (elim (Bool-cases (dest == d && last == l)) [
    | inl same ↦
        let p : dest ≡ d = ground (arith, text_eq.beq_iff dest d) in
        let q : last ≡ l = ground (arith, text_eq.beq_iff last l) in
        let e' : lookup2 d l s.0 ≡ some t = rw (p, q) at e in rw same e'
    | inr other ↦ rw other
  ])
]

process_tc_entry_lem :
    (last : Text) (ansn : ℕ) (exp : Time) (dest d l : Text)
    (s : GoMap Text (GoMap Text TopologyTuple) × Bool)
    → lookup2 d l (process_tc_entry last ansn exp dest s).0 ≡ (
        if dest == d && last == l
        then updated_tuple dest last ansn exp (lookup2 dest last s.0)
        else lookup2 d l s.0)
unfolding process_tc_entry
process_tc_entry_lem last ansn exp dest d l s =
    update_tuple_lem last ansn exp dest d l s (lookup2 dest last s.0) refl

process_tc_entry_same :
    (last : Text) (ansn : ℕ) (exp : Time) (dest d : Text)
    → dest ≡ d
    → (s : GoMap Text (GoMap Text TopologyTuple) × Bool) (l : Text)
    → lookup2 d l (process_tc_entry last ansn exp dest s).0
      ≡ (if last == l then updated_tuple d last ansn exp (lookup2 d last s.0) else lookup2 d l s.0)
process_tc_entry_same last ansn exp dest d p s l =
    rw p (let e = process_tc_entry_lem last ansn exp d d l s in rw (==_refl d) at e)

-- A second update by the same TC changes nothing.
updated_twice :
    (dest last : Text) (ansn : ℕ) (exp : Time) (o : Option TopologyTuple)
    → updated_tuple dest last ansn exp (updated_tuple dest last ansn exp o)
      ≡ updated_tuple dest last ansn exp o
updated_twice dest last ansn exp none = ground arith
updated_twice dest last ansn exp (some t) = ground arith

process_tc_entries_lem :
    (last : Text) (ansn : ℕ) (exp : Time) (addrs : List Ip) (d l : Text)
    (s : GoMap Text (GoMap Text TopologyTuple) × Bool)
    → lookup2 d l (process_tc_entries last ansn exp addrs s).0 ≡ (
        if member d (map ip_string addrs) && last == l
        then updated_tuple d last ansn exp (lookup2 d last s.0)
        else lookup2 d l s.0)
unfolding process_tc_entries
process_tc_entries_lem last ansn exp [] d l s = refl
process_tc_entries_lem last ansn exp (addr ∷ addrs) d l s =
    let s' = process_tc_entry last ansn exp (ip_string addr) s in
    process_tc_entries_lem last ansn exp addrs d l s' ∙ elim (Bool-cases (ip_string addr == d)) [
      | inl same ↦
          let p : ip_string addr ≡ d = (text_eq.beq_iff (ip_string addr) d).0 same in
          let o = lookup2 d last s.0 in
          let e = process_tc_entry_same last ansn exp (ip_string addr) d p s in
          elim (Bool-cases (last == l)) [
            | inl here ↦
                let e1 = rw here at (e l) in
                let e2 = rw (==_refl last) at (e last) in
                elim (Bool-cases (member d (map ip_string addrs))) [
                  | inl again ↦ rw (same, here, again, e2) (updated_twice d last ansn exp o)
                  | inr once ↦ rw (same, here, once, e1)
                ]
            | inr there ↦
                let e1 = rw there at (e l) in
                elim (Bool-cases (member d (map ip_string addrs))) [
                  | inl again ↦ rw (same, there, again, e1)
                  | inr once ↦ rw (same, there, once, e1)
                ]
          ]
      | inr other ↦
          let e1 : lookup2 d l s'.0 ≡ lookup2 d l s.0 =
            process_tc_entry_lem last ansn exp (ip_string addr) d l s ∙ rw other in
          let e2 : lookup2 d last s'.0 ≡ lookup2 d last s.0 =
            process_tc_entry_lem last ansn exp (ip_string addr) d last s ∙ rw other in
          rw (other, e1, e2)
    ]

-- The loop writes what it makes of the tuple of each advertised destination, and nothing else.
topology-process_tc :
    (now : Time) (originator : Ip) (tc : TcMessage) (vtime : Duration) (tm : TopologyManager)
    (d l : Text)
    → lookup2 d l (process_tc now originator tc vtime tm).0.topology ≡ (
        if member d (map ip_string tc.neighbor_addresses) && ip_string originator == l
        then updated_tuple d
            (ip_string originator)
            tc.ansn
            (now +ℤ vtime)
            (lookup2 d (ip_string originator) tm.topology)
        else lookup2 d l tm.topology)
unfolding process_tc
topology-process_tc now originator tc vtime tm d l =
    process_tc_entries_lem (ip_string originator) tc.ansn (now +ℤ vtime) tc.neighbor_addresses d l
      (tm.topology, false)

-- The recorded number is ahead of the advertised one by 1 to 32768.
abbrev pub ahead : ℕ → ℕ → Bool
ahead recorded ansn = ltb ansn recorded && leb (recorded - ansn) 32768

-- What a TC is to do to the tuple of a destination that it advertises.
abbrev pub refreshed : Text → Text → ℕ → Time → Option TopologyTuple → Option TopologyTuple
refreshed dest last ansn exp none =
    some (record { dest_ip = dest; last_ip = last; seq_num = ansn; expiration_time = exp })
refreshed dest last ansn exp (some t) =
    if ahead t.seq_num ansn
    then some t
    else some
        (record { dest_ip = t.dest_ip; last_ip = t.last_ip; seq_num = ansn; expiration_time = exp })

-- The sequence number of a tuple is a uint16.
abbrev pub IsUint16 : Option TopologyTuple → Type 0
IsUint16 o = (t : TopologyTuple) → o ≡ some t → t.seq_num < 65536

updated_tuple-refreshed :
    (dest last : Text) (ansn : ℕ) (exp : Time) (o : Option TopologyTuple)
    → ansn < 65536
    → IsUint16 o
    → updated_tuple dest last ansn exp o ≡ refreshed dest last ansn exp o
updated_tuple-refreshed dest last ansn exp none small h = refl
updated_tuple-refreshed dest last ansn exp (some t) small h =
    let newer : is_newer ansn t.seq_num ≡ not (ahead t.seq_num ansn) =
      ground (arith, small, h t refl) in
    elim (Bool-cases (ahead t.seq_num ansn)) [
      | inl stays ↦ rw (newer, stays) refl
      | inr goes ↦ rw (newer, goes) refl
    ]

-- On uint16s, after a TC the tuple of each advertised destination through the originator is refreshed: a
-- new one is made where there was none, a tuple whose sequence number is ahead of that of the TC by 1 to
-- 32768 stays as it was, and any other tuple gets the sequence number and the new expiration time. No
-- other tuple changes.
pub lookup2-process_tc :
    (now : Time) (originator : Ip) (tc : TcMessage) (vtime : Duration) (tm : TopologyManager)
    (d l : Text)
    → tc.ansn < 65536
    → IsUint16 (lookup2 d (ip_string originator) tm.topology)
    → lookup2 d l (process_tc now originator tc vtime tm).0.topology ≡ (
        if member d (map ip_string tc.neighbor_addresses) && ip_string originator == l
        then refreshed d
            (ip_string originator)
            tc.ansn
            (now +ℤ vtime)
            (lookup2 d (ip_string originator) tm.topology)
        else lookup2 d l tm.topology)
lookup2-process_tc now originator tc vtime tm d l small h =
    topology-process_tc now originator tc vtime tm d l
    ∙ ap
        (λ o.
          if member d (map ip_string tc.neighbor_addresses) && ip_string originator == l
          then o
          else lookup2 d l tm.topology)
        (updated_tuple-refreshed d (ip_string originator) tc.ansn (now +ℤ vtime)
          (lookup2 d (ip_string originator) tm.topology) small h)

-- RFC 3626, section 19, with MAXVALUE 65535: the sequence number s is more recent than a.
abbrev pub more_recent : ℕ → ℕ → Bool
more_recent s a = ltb a s && leb (s - a) 32767 || ltb s a && ltb 32767 (a - s)

-- The test of ProcessTC accepts what is not older by the wrap-around order of RFC 3626, with two
-- exceptions: it accepts an older number that lies more than half the range above the recorded one,
-- and it rejects the number at exactly half the range below.
pub is_newer_exceptions :
    (ansn seq : ℕ)
    → ansn < 65536
    → seq < 65536
    → is_newer ansn seq ≡ (
        if ltb (seq + 32767) ansn
        then true
        else if nat_beq seq (ansn + 32768)
        then false
        else not (more_recent seq ansn))
is_newer_exceptions ansn seq ha hs = ground arith
