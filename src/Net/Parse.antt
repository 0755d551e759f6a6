-- ===== src/Net/Parse.antt =====
-- What the program uses of Go's parsers of addresses: net.ParseIP, and net.ParseCIDR with the tests on
-- its result. A parse that fails is `none`, or a nil IP.
use mathlib.Core.Option
use Prim.Native.Nat.{bit_and}
use olsr_go.Base.{
  ℕ, zero, suc, ◌+◌, ◌-◌, ◌*◌, ◌/◌, ◌%◌, ◌^◌, Bool, true, false, ◌&&◌, ◌||◌, not, Option, none,
  some, List, [], ◌∷◌, ◌++◌, ltb, leb, nat_beq, if◌then◌else◌, length, drop, take, Text, codes,
  refl, ◌≡◌, text_beq,
}
use olsr_go.Net.{Ip, to4, v4_in_v6_prefix}
use olsr_go.Net.Cidr.{IpNet, mask_length, network_and_mask}

abbrev pub is_digit : ℕ → Bool
is_digit c = leb 48 c && leb c 57

-- The loop of parseIPv4Fields: the digits so far and the value of the field that is read, and the
-- fields before it. A field that is empty has no digit at its end.
unfoldable pub parse_fields : Text → ℕ → ℕ → List ℕ → Option (List ℕ)
parse_fields [] digits val fields =
    if nat_beq (length fields) 3 && not (nat_beq digits 0) then some (fields ++ val ∷ []) else none
parse_fields (c ∷ cs) digits val fields =
    let value = val * 10 + (c - 48) in
    let more = parse_fields cs (suc digits) value fields in
    let next = parse_fields cs 0 0 (fields ++ val ∷ []) in
    if is_digit c
    then (if nat_beq digits 1 && nat_beq val 0 || ltb 255 value then none else more)
    else if nat_beq c 46
    then (if nat_beq digits 0 || nat_beq (length fields) 3 then none else next)
    else none

unfoldable pub parse_ipv4 : Text → Option Ip
unfolding parse_fields
parse_ipv4 s = parse_fields s 0 0 []

-- The value of a hexadecimal digit.
hex_value : ℕ → Option ℕ
hex_value c =
    if is_digit c
    then some (c - 48)
    else if leb 97 c && leb c 102
    then some (c - 87)
    else if leb 65 c && leb c 70
    then some (c - 55)
    else none

-- The inner loop of parseIPv6: the value and the rest of the text, of at most four digits.
hex_field : ℕ → ℕ → Text → Option (ℕ × ℕ × Text)
unfolding hex_value
hex_field digits acc [] = some (digits, acc, [])
hex_field digits acc (c ∷ cs) = elim (hex_value c) [
  | none ↦ some (digits, acc, c ∷ cs)
  | some v ↦ if ltb 3 digits then none else hex_field (suc digits) (acc * 16 + v) cs
]

zeros : ℕ → List ℕ
zeros zero = []
zeros (suc n) = 0 ∷ zeros n

-- The end of parseIPv6, where the whole text has been read: the ellipsis is filled with zeros.
expand : List ℕ → Option ℕ → Option Ip
unfolding zeros
expand bytes none = if nat_beq (length bytes) 16 then some bytes else none
expand bytes (some at) =
    if ltb (length bytes) 16
    then some (take at bytes ++ (zeros (16 - length bytes) ++ drop at bytes))
    else none

-- The outer loop of parseIPv6, at most eight fields: the bytes so far and where the ellipsis stands.
parse_groups : ℕ → Text → List ℕ → Option ℕ → Option Ip
unfolding hex_field expand parse_ipv4
parse_groups zero s bytes ellipsis = if nat_beq (length s) 0 then expand bytes ellipsis else none
parse_groups (suc fuel) s bytes ellipsis = elim (hex_field 0 0 s) [
  | none ↦ none
  | some (zero, acc, rest) ↦ none
  | some (suc digits, acc, []) ↦ expand (bytes ++ acc / 256 ∷ acc % 256 ∷ []) ellipsis
  | some (suc digits, acc, c ∷ rest) ↦
      (let read = bytes ++ acc / 256 ∷ acc % 256 ∷ [] in
        if nat_beq c 46
        then (if (nat_beq (length bytes) 12 || is_some ellipsis) && leb (length bytes) 12
            then (elim (parse_ipv4 s) [ none ↦ none | some ip4 ↦ expand (bytes ++ ip4) ellipsis ])
            else none)
        else if nat_beq c 58
        then elim rest [
          | [] ↦ none
          | d ∷ more ↦
              (if nat_beq d 58
                then (if is_some ellipsis
                    then none
                    else if nat_beq (length more) 0
                    then expand read (some (length read))
                    else parse_groups fuel more read (some (length read)))
                else parse_groups fuel (d ∷ more) read ellipsis)
        ]
        else none)
]
  where
    is_some : Option ℕ → Bool
    is_some none = false
    is_some (some n) = true

-- netip.parseIPv6; a text with a zone fails, as it does in net.ParseIP and net.ParseCIDR.
unfoldable pub parse_ipv6 : Text → Option Ip
unfolding parse_groups expand text_beq
parse_ipv6 s =
    let rest = drop 2 s in
    if text_beq (take 2 s) (codes "::")
    then (if nat_beq (length rest) 0 then expand [] (some 0) else parse_groups 8 rest [] (some 0))
    else parse_groups 8 s [] none

-- netip.ParseAddr: four bytes, or sixteen.
unfoldable pub parse_addr : Text → Text → Option Ip
unfolding parse_ipv4 parse_ipv6
parse_addr s [] = none
parse_addr s (c ∷ cs) =
    let more = parse_addr s cs in
    if nat_beq c 46
    then parse_ipv4 s
    else if nat_beq c 58
    then parse_ipv6 s
    else if nat_beq c 37
    then none
    else more

-- The sixteen bytes of an address.
as16 : Ip → Ip
unfolding v4_in_v6_prefix
as16 ip = if nat_beq (length ip) 4 then v4_in_v6_prefix ++ ip else ip

-- net.ParseIP
unfoldable pub parse_ip : Text → Option Ip
unfolding parse_addr as16
parse_ip s = Option.map as16 (parse_addr s s)

parse_v4 :
    parse_ip (codes "10.0.0.254")
    ≡ some (0 ∷ 0 ∷ 0 ∷ 0 ∷ 0 ∷ 0 ∷ 0 ∷ 0 ∷ 0 ∷ 0 ∷ 255 ∷ 255 ∷ 10 ∷ 0 ∷ 0 ∷ 254 ∷ [])
unfolding parse_ip v4_in_v6_prefix
parse_v4 = refl

parse_v6 :
    parse_ip (codes "2001:DB8::1")
    ≡ some (32 ∷ 1 ∷ 13 ∷ 184 ∷ 0 ∷ 0 ∷ 0 ∷ 0 ∷ 0 ∷ 0 ∷ 0 ∷ 0 ∷ 0 ∷ 0 ∷ 0 ∷ 1 ∷ [])
unfolding parse_ip
parse_v6 = refl

-- dtoi on a text that must be digits only: the number, below 0xFFFFFF.
digits_value : Text → ℕ → Option ℕ
digits_value [] n = some n
digits_value (c ∷ cs) n =
    let m = n * 10 + (c - 48) in
    let more = digits_value cs m in
    if is_digit c then (if leb 0xFFFFFF m then none else more) else none

-- strings.Cut at the first slash
cut : Text → Option (Text × Text)
cut [] = none
cut (c ∷ cs) =
    let more = cut cs in
    if nat_beq c 47 then some ([], cs) else Option.map (λ (p : Text × Text). (c ∷ p.0, p.1)) more

-- net.CIDRMask, by the bytes: `ones` one bits from the top.
mask_bytes : ℕ → ℕ → Ip
mask_bytes ones zero = []
mask_bytes ones (suc n) =
    (if leb 8 ones then 255 else 256 - 2 ^ (8 - ones)) ∷ mask_bytes (ones - 8) n

and_bytes : Ip → Ip → Ip
and_bytes (a ∷ as') (b ∷ bs) = bit_and a b ∷ and_bytes as' bs
and_bytes _ _ = []

-- net.ParseCIDR, the network that it returns.
unfoldable pub parse_cidr : Text → Option IpNet
unfolding parse_addr digits_value cut mask_bytes and_bytes
parse_cidr s = elim (cut s) [
  | none ↦ none
  | some (addr, ones) ↦ elim (parse_addr addr addr) [
    | none ↦ none
    | some ip ↦ elim (digits_value ones 0) [
      | none ↦ none
      | some n ↦
          (if nat_beq (length ones) 0 || ltb (8 * length ip) n
            then none
            else (let mask = mask_bytes n (length ip) in
                some (record { ip = and_bytes ip mask; mask = mask })))
    ]
  ]
]

-- net.ParseCIDR, the address that it returns, where it returns a network.
unfoldable pub parse_cidr_ip : Text → Ip
unfolding parse_addr cut as16
parse_cidr_ip s = elim (cut s) [
  | none ↦ []
  | some (addr, ones) ↦ elim (parse_addr addr addr) [ none ↦ [] | some ip ↦ as16 ip ]
]

-- ipNet.Contains(ip)
unfoldable pub contains : IpNet → Ip → Bool
unfolding network_and_mask and_bytes to4 text_beq
contains net ip = elim (network_and_mask net) [
  | none ↦ nat_beq (length ip) 0
  | some (number, mask) ↦
      (let x : Ip = elim (to4 ip) [ none ↦ ip | some ip4 ↦ ip4 ] in
        nat_beq (length x) (length number) && text_beq (and_bytes number mask) (and_bytes x mask))
]

-- The first result of ipNet.Mask.Size(), where 0 stands for a mask of no canonical form, too.
abbrev pub mask_size : IpNet → ℕ
mask_size net = elim (mask_length net.mask) [ none ↦ 0 | some n ↦ n ]
