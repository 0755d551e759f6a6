-- ===== src/Net/Named.antt =====
-- The texts of net.IPs as names, the keys of the tables of internal/olsr.
use olsr_go.Base.{
  ℕ, suc, ◌+◌, ◌≡◌, ◌≢◌, inl, inr, some, List, [], ◌∷◌, ◌++◌, Bool-cases, Option-cases, Text,
  length, nat_beq, if◌then◌else◌, arith, take, length-drop, ◌*◌,
}
use olsr_go.Net.{
  Ip, to4, itoa, dotted, hex_bytes, hex_group, groups, longest_run, joined, ip6_text, ip_string,
}

append-cons_nonempty : (s : Text) (c : ℕ) (t : Text) → s ++ c ∷ t ≢ []
append-cons_nonempty [] c t h = cc
append-cons_nonempty (a ∷ s) c t h = cc

itoa_nonempty : (n : ℕ) → itoa n ≢ []
unfolding itoa
itoa_nonempty n h = ground (arith, h)

dotted_nonempty : (a : ℕ) (ip : Ip) → dotted (a ∷ ip) ≢ []
unfolding dotted
dotted_nonempty a [] h = itoa_nonempty a h
dotted_nonempty a (b ∷ ip) h = append-cons_nonempty (itoa a) 46 (dotted (b ∷ ip)) h

hex_group_nonempty : (g : ℕ) → hex_group g ≢ []
unfolding hex_group
hex_group_nonempty g h = ground (arith, h)

joined_nonempty : (g : ℕ) (gs : List ℕ) → joined (g ∷ gs) ≢ []
unfolding joined
joined_nonempty g [] h = hex_group_nonempty g h
joined_nonempty g (k ∷ gs) h = append-cons_nonempty (hex_group g) 58 (joined (k ∷ gs)) h

ip6_text_nonempty : (g : ℕ) (gs : List ℕ) (run : ℕ × ℕ) → ip6_text (g ∷ gs) run ≢ []
unfolding ip6_text
ip6_text_nonempty g gs (start, ℕ.zero) h = joined_nonempty g gs h
ip6_text_nonempty g gs (start, suc len) h =
    append-cons_nonempty (joined (take start (g ∷ gs))) 58 _ h

length-to4 : (ip ip4 : Ip) → to4 ip ≡ some ip4 → length ip4 ≡ 4
unfolding to4
length-to4 ip ip4 h = ground (arith, h, length-drop 12 ip)

no_text : (ip : Ip) → length ip ≡ 4 → dotted ip ≢ []
no_text [] l h = absurd (omega arith)
no_text (a ∷ ip) l h = dotted_nonempty a ip h

no_v4 :
    (a : ℕ) (ip : Ip)
    → (if nat_beq (length (a ∷ ip)) 16
        then (let gs = groups (a ∷ ip) in ip6_text gs (longest_run 0 0 0 gs))
        else 63 ∷ hex_bytes (a ∷ ip))
      ≢ []
unfolding groups
no_v4 a [] h = cc
no_v4 a (b ∷ ip) h = elim (Bool-cases (nat_beq (length (a ∷ b ∷ ip)) 16)) [
  | inl long ↦ ip6_text_nonempty (a * 256 + b) (groups ip) _ (rw long at h)
  | inr short ↦ absurd (let h' = rw short at h in cc)
]

pub ip_string_nonempty : (ip : Ip) → ip_string ip ≢ []
unfolding ip_string
ip_string_nonempty [] h = cc
ip_string_nonempty (a ∷ ip) h = elim (Option-cases (to4 (a ∷ ip))) [
  | inr (ip4, e) ↦ no_text ip4 (length-to4 (a ∷ ip) ip4 e) (rw (e, ip_string) at h)
  | inl e ↦ no_v4 a ip (rw (e, ip_string) at h)
]
