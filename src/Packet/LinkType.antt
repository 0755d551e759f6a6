-- ===== src/Packet/LinkType.antt =====
-- internal/olsr/packet.go: the link types, the low two bits of a link code.
use olsr_go.Base.{ℕ}

abbrev pub unspec : ℕ
unspec = 0

abbrev pub asym : ℕ
asym = 1

abbrev pub symmetric : ℕ
symmetric = 2

abbrev pub lost : ℕ
lost = 3
