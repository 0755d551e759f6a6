-- ===== src/Packet/MsgType.antt =====
-- internal/olsr/packet.go: the message types.
use olsr_go.Base.{ℕ}

abbrev pub hello : ℕ
hello = 1

abbrev pub tc : ℕ
tc = 2

abbrev pub mid : ℕ
mid = 3

abbrev pub hna : ℕ
hna = 4

abbrev pub source_claim : ℕ
source_claim = 108

abbrev pub confirm_parent : ℕ
confirm_parent = 109
