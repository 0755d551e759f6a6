-- ===== src/Packet/NeighType.antt =====
-- internal/olsr/packet.go: the neighbour types, the next two bits of a link code.
use olsr_go.Base.{ℕ}

abbrev pub not_neigh : ℕ
not_neigh = 0

abbrev pub symmetric : ℕ
symmetric = 1

abbrev pub mpr : ℕ
mpr = 2
