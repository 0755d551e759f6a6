-- ===== src/Net.antt =====
-- What the program uses of Go's `net` and `time`: addresses as byte slices, their text (the key of
-- every table), signed durations and instants.
pub mod Cidr
pub mod Named
pub mod Parse
use Prim.Native.Nat.{max}
use olsr_go.Base.{
  ℕ, zero, suc, ◌+◌, ◌-◌, ◌*◌, ◌/◌, ◌%◌, ◌<◌, Bool, true, false, ◌&&◌, ◌||◌, List, [], ◌∷◌, ◌++◌,
  Option, none, some, ltb, leb, nat_beq, if◌then◌else◌, length, drop, take, Text, codes, ◌≡◌, refl,
  text_beq, arith,
}
use olsr_go.Base.Int.{ℤ, ltb_ℤ}

-- net.IP and net.IPMask; nil is the empty slice.
abbrev pub Ip : Type 0
Ip = List ℕ

-- A time.Duration, and a time.Time as the nanoseconds since a fixed instant.
abbrev pub Duration : Type 0
Duration = ℤ

abbrev pub Time : Type 0
Time = ℤ

-- now.After(exp) and now.Before(exp)
abbrev pub after : Time → Time → Bool
after now exp = ltb_ℤ exp now

abbrev pub before : Time → Time → Bool
before now exp = ltb_ℤ now exp

unfoldable pub v4_in_v6_prefix : Ip
v4_in_v6_prefix = 0 ∷ 0 ∷ 0 ∷ 0 ∷ 0 ∷ 0 ∷ 0 ∷ 0 ∷ 0 ∷ 0 ∷ 255 ∷ 255 ∷ []

-- ip.To4(): `none` is nil.
unfoldable pub to4 : Ip → Option Ip
unfolding v4_in_v6_prefix text_beq
to4 ip =
    if nat_beq (length ip) 4
    then some ip
    else if nat_beq (length ip) 16 && text_beq (take 12 ip) v4_in_v6_prefix
    then some (drop 12 ip)
    else none

-- A number below 1000 in decimal.
unfoldable pub itoa : ℕ → Text
itoa n =
    if ltb n 10
    then (48 + n) ∷ []
    else if ltb n 100
    then (48 + n / 10) ∷ (48 + n % 10) ∷ []
    else (48 + n / 100) ∷ (48 + n / 10 % 10) ∷ (48 + n % 10) ∷ []

unfoldable pub dotted : Ip → Text
unfolding itoa
dotted [] = []
dotted (a ∷ []) = itoa a
dotted (a ∷ b ∷ rest) = itoa a ++ b'.' ∷ dotted (b ∷ rest)

hex_digit : ℕ → ℕ
hex_digit n = if ltb n 10 then 48 + n else 87 + n

unfoldable hex_bytes : List ℕ → Text
unfolding hex_digit
hex_bytes [] = []
hex_bytes (b ∷ bs) = hex_digit (b / 16) ∷ hex_digit (b % 16) ∷ hex_bytes bs

-- One 16-bit group of an IPv6 address, without leading zeros.
hex_group : ℕ → Text
unfolding hex_digit
hex_group g =
    if ltb g 16
    then hex_digit g ∷ []
    else if ltb g 256
    then hex_digit (g / 16) ∷ hex_digit (g % 16) ∷ []
    else if ltb g 4096
    then hex_digit (g / 256) ∷ hex_digit (g / 16 % 16) ∷ hex_digit (g % 16) ∷ []
    else hex_digit (g / 4096)
      ∷ hex_digit (g / 256 % 16)
      ∷ hex_digit (g / 16 % 16)
      ∷ hex_digit (g % 16)
      ∷ []

groups : Ip → List ℕ
groups (a ∷ b ∷ rest) = (a * 256 + b) ∷ groups rest
groups _ = []

zero_run : List ℕ → ℕ
zero_run [] = 0
zero_run (g ∷ gs) = let n = zero_run gs in if nat_beq g 0 then suc n else 0

-- The first longest run of two or more zero groups, by its start and its length.
longest_run : ℕ → ℕ → ℕ → List ℕ → ℕ × ℕ
unfolding zero_run
longest_run i start len [] = (start, len)
longest_run i start len (g ∷ gs) =
    let n = zero_run (g ∷ gs) in
    let better = leb 2 n && ltb len n in
    longest_run (suc i) (if better then i else start) (if better then n else len) gs

joined : List ℕ → Text
unfolding hex_group
joined [] = []
joined (g ∷ []) = hex_group g
joined (g ∷ h ∷ rest) = hex_group g ++ b':' ∷ joined (h ∷ rest)

ip6_text : List ℕ → ℕ × ℕ → Text
unfolding joined
ip6_text gs (start, zero) = joined gs
ip6_text gs (start, suc len) =
    joined (take start gs) ++ b':' ∷ b':' ∷ joined (drop (start + suc len) gs)

-- ip.String()
unfoldable pub ip_string : Ip → Text
unfolding to4 dotted ip6_text longest_run groups hex_bytes
ip_string [] = codes "<nil>"
ip_string (a ∷ ip) = elim (to4 (a ∷ ip)) [
  | some ip4 ↦ dotted ip4
  | none ↦
      (if nat_beq (length (a ∷ ip)) 16
        then (let gs = groups (a ∷ ip) in ip6_text gs (longest_run 0 0 0 gs))
        else b'?' ∷ hex_bytes (a ∷ ip))
]

ip_string_v4 : ip_string (192 ∷ 168 ∷ 0 ∷ 7 ∷ []) ≡ codes "192.168.0.7"
unfolding ip_string
ip_string_v4 = refl

ip_string_v6 :
    ip_string (0x20 ∷ 0x01 ∷ 0x0d ∷ 0xb8 ∷ 0 ∷ 0 ∷ 0 ∷ 0 ∷ 0 ∷ 0 ∷ 0 ∷ 0 ∷ 0 ∷ 0 ∷ 0 ∷ 1 ∷ [])
    ≡ codes "2001:db8::1"
unfolding ip_string
ip_string_v6 = refl
