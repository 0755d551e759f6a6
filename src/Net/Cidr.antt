-- ===== src/Net/Cidr.antt =====
-- The text of a `net.IPNet`, the key of the HNA tables.
use olsr_go.Base.{
  ℕ, ◌+◌, Bool, true, ◌&&◌, Option, none, some, [], ◌∷◌, ◌++◌, nat_beq, if◌then◌else◌, length, drop,
  Text, codes, refl, ◌≡◌,
}
use mathlib.Core.Option
use olsr_go.Net.{Ip, to4, itoa, hex_bytes, ip_string}

-- net.IPNet
pub record IpNet : Type 0 where
  pub ip : Ip
  pub mask : Ip

-- The one bits at the top of a byte that has no other: `none` where a zero bit comes before a one.
ones_of : ℕ → Option ℕ
ones_of b =
    if nat_beq b 0
    then some 0
    else if nat_beq b 128
    then some 1
    else if nat_beq b 192
    then some 2
    else if nat_beq b 224
    then some 3
    else if nat_beq b 240
    then some 4
    else if nat_beq b 248
    then some 5
    else if nat_beq b 252
    then some 6
    else if nat_beq b 254
    then some 7
    else none

all_zero : Ip → Bool
all_zero [] = true
all_zero (b ∷ bs) = nat_beq b 0 && all_zero bs

-- simpleMaskLength: `none` is -1.
unfoldable pub mask_length : Ip → Option ℕ
unfolding ones_of all_zero
mask_length [] = some 0
mask_length (b ∷ bs) =
    let rest = mask_length bs in
    if nat_beq b 255 then Option.map (λ n. 8 + n) rest else if all_zero bs then ones_of b else none

unfoldable network_number : Ip → Option Ip
unfolding to4
network_number number = elim (to4 number) [
  | some ip4 ↦ some ip4
  | none ↦ if nat_beq (length number) 16 then some number else none
]

-- networkNumberAndMask: `none` is (nil, nil).
unfoldable pub network_and_mask : IpNet → Option (Ip × Ip)
unfolding network_number
network_and_mask n = elim (network_number n.ip) [
  | none ↦ none
  | some ip ↦
      (if nat_beq (length n.mask) 4
        then (if nat_beq (length ip) 4 then some (ip, n.mask) else none)
        else if nat_beq (length n.mask) 16
        then (if nat_beq (length ip) 4 then some (ip, drop 12 n.mask) else some (ip, n.mask))
        else none)
]

-- ipNet.String()
unfoldable pub cidr : IpNet → Text
unfolding network_and_mask mask_length
cidr n = elim (network_and_mask n) [
  | none ↦ codes "<nil>"
  | some (ip, m) ↦ elim (mask_length m) [
    | some ones ↦ ip_string ip ++ b'/' ∷ itoa ones
    | none ↦ ip_string ip ++ b'/' ∷ hex_bytes m
  ]
]

cidr_v4 :
    cidr (record { ip = 10 ∷ 1 ∷ 0 ∷ 0 ∷ []; mask = 255 ∷ 255 ∷ 128 ∷ 0 ∷ [] })
    ≡ codes "10.1.0.0/17"
unfolding cidr ip_string
cidr_v4 = refl
