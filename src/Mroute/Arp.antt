-- ===== src/Mroute/Arp.antt =====
-- internal/mroute/arp.go: the MAC address of a next hop, by the lines of /proc/net/arp, of which the
-- kernel writes ASCII only.
use olsr_go.Base.{
  ℕ, Bool, not, ◌&&◌, ◌||◌, Option, none, some, List, [], ◌∷◌, leb, nat_beq, ◌==◌, if◌then◌else◌,
  Text, codes, text_eq,
}

is_space : ℕ → Bool
is_space c = nat_beq c 32 || leb 9 c && leb c 13

with_word : Text → List Text → List Text
with_word [] words = words
with_word (c ∷ cs) words = (c ∷ cs) ∷ words

-- The word that a text begins with, empty at a space, and the words after it.
unfoldable words : Text → Text × List Text
unfolding is_space with_word
words [] = ([], [])
words (c ∷ cs) =
    let (word, others) = words cs in
    if is_space c then ([], with_word word others) else (c ∷ word, others)

-- strings.Fields
unfoldable pub text_fields : Text → List Text
unfolding words with_word
text_fields s = let (word, others) = words s in with_word word others

abbrev zero_mac : Text
zero_mac = codes "00:00:00:00:00:00"

entry_mac : Text → List Text → Option Text
entry_mac ip_addr (ip ∷ hw_type ∷ flags ∷ mac ∷ others) =
    if (ip == ip_addr) && (not (mac == zero_mac) && not (mac == [])) then some mac else none
entry_mac ip_addr _ = none

unfoldable entries_mac : Text → List Text → Option Text
unfolding entry_mac text_fields
entries_mac ip_addr [] = none
entries_mac ip_addr (line ∷ lines) =
    let rest = entries_mac ip_addr lines in
    elim (entry_mac ip_addr (text_fields line)) [ some mac ↦ some mac | none ↦ rest ]

-- Of a file that cannot be opened there are no lines, and the first line is a header.
unfoldable pub resolve_mac_from_arp : Option (List Text) → Text → Option Text
unfolding entries_mac
resolve_mac_from_arp (some (header ∷ lines)) ip_addr = entries_mac ip_addr lines
resolve_mac_from_arp _ ip_addr = none
