-- ===== src/Zebra/Reader.antt =====
-- The ZAPI messages of internal/zebra read back, field by field: the layout that a receiver goes by.
use olsr_go.Base.{
  ℕ, zero, suc, ◌+◌, ◌*◌, ◌/◌, Option, none, some, List, [], ◌∷◌, ◌++◌, leb, nat_beq, length, take,
  drop, if◌then◌else◌,
}
use olsr_go.Packet.Bytes.{be16}
use olsr_go.Zebra.{zapi_marker, zapi_version6, route_olsr, be32}

infixl 5 ◌>>=◌
abbrev pub ◌>>=◌ {ℓ κ} : {A : Type ℓ} {B : Type κ} → Option A → (A → Option B) → Option B
none >>= f = none
some a >>= f = f a

-- A reader takes bytes off the front.
unfoldable pub read_u16 : List ℕ → Option (ℕ × List ℕ)
read_u16 (a ∷ b ∷ rest) = some (a * 256 + b, rest)
read_u16 _ = none

unfoldable pub read_u32 : List ℕ → Option (ℕ × List ℕ)
read_u32 (a ∷ b ∷ c ∷ d ∷ rest) = some (a * 16777216 + b * 65536 + c * 256 + d, rest)
read_u32 _ = none

unfoldable pub read_u8 : List ℕ → Option (ℕ × List ℕ)
read_u8 [] = none
read_u8 (a ∷ rest) = some (a, rest)

unfoldable pub read_bytes : ℕ → List ℕ → Option (List ℕ × List ℕ)
read_bytes n bs = if leb n (length bs) then some (take n bs, drop n bs) else none

-- The given bytes must come next.
unfoldable pub expect : List ℕ → List ℕ → Option (List ℕ)
expect [] bs = some bs
expect (w ∷ want) [] = none
expect (w ∷ want) (b ∷ bs) = let more = expect want bs in if nat_beq w b then more else none

-- The header: the size is that of the message, and what follows the VRF is the command.
unfoldable pub read_header : List ℕ → Option (ℕ × List ℕ)
unfolding expect read_u16
read_header bytes = do
  (size, bs) ← read_u16 bytes
  bs ← (if nat_beq size (length bytes) then some bs else none)
  bs ← expect (zapi_marker ∷ zapi_version6 ∷ be32 0) bs
  read_u16 bs

abbrev pub at_end {ℓ} : {A : Type ℓ} → A → List ℕ → Option A
at_end a [] = some a
at_end a (b ∷ bs) = none

pub record UnicastRequest : Type 0 where
  pub cmd : ℕ
  pub prefix_length : ℕ
  pub prefix : List ℕ
  pub next_hop : List ℕ
  pub ifindex : ℕ
  pub metric : ℕ

unfoldable pub read_unicast : List ℕ → Option UnicastRequest
unfolding read_header expect read_u8 read_u32 read_bytes
read_unicast bytes = do
  (cmd, bs) ← read_header bytes
  bs ← expect (route_olsr ∷ be16 0 ++ (be32 0 ++ (be32 0x07 ++ (1 ∷ 2 ∷ [])))) bs
  (ones, bs) ← read_u8 bs
  (prefix, bs) ← read_bytes ((ones + 7) / 8) bs
  bs ← expect (be16 1 ++ (be32 0 ++ (2 ∷ 0 ∷ []))) bs
  (next_hop, bs) ← read_bytes 4 bs
  (ifindex, bs) ← read_u32 bs
  bs ← expect (150 ∷ []) bs
  (metric, bs) ← read_u32 bs
  at_end
      (record {
        cmd = cmd;
        prefix_length = ones;
        prefix = prefix;
        next_hop = next_hop;
        ifindex = ifindex;
        metric = metric;
      })
      bs

pub record IpmrRequest : Type 0 where
  pub ipmr_cmd : ℕ
  pub source : List ℕ
  pub group : List ℕ
  pub iif : ℕ
  pub oifs : List ℕ

-- As many interfaces as were announced, each with a TTL of 1.
unfoldable pub read_oifs : ℕ → List ℕ → Option (List ℕ × List ℕ)
unfolding read_u32 expect
read_oifs zero bs = some ([], bs)
read_oifs (suc n) bs = do
  (oif, bs) ← read_u32 bs
  bs ← expect (be32 1) bs
  (oifs, bs) ← read_oifs n bs
  some (oif ∷ oifs, bs)

unfoldable pub read_ipmr : List ℕ → Option IpmrRequest
unfolding read_header expect read_u32 read_bytes read_oifs
read_ipmr bytes = do
  (cmd, bs) ← read_header bytes
  bs ← expect (2 ∷ []) bs
  (source, bs) ← read_bytes 4 bs
  (group, bs) ← read_bytes 4 bs
  (iif, bs) ← read_u32 bs
  (count, bs) ← read_u32 bs
  (oifs, bs) ← read_oifs count bs
  at_end (record { ipmr_cmd = cmd; source = source; group = group; iif = iif; oifs = oifs }) bs
