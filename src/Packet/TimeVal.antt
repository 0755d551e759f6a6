-- ===== src/Packet/TimeVal.antt =====
-- internal/olsr/packet.go: DecodeTimeVal and EncodeTimeVal. Go's float64 is a parameter: a type with
-- the operations that the code uses, and the laws of IEEE comparison that hold for NaN too.
pub mod Nearest
use Prim.Native.Nat.{bit_and, bit_or}
use olsr_go.Base.{
  ℕ, zero, suc, ◌+◌, ◌-◌, ◌*◌, ◌/◌, ◌%◌, ◌≡◌, Bool, true, false, ◌||◌, if◌then◌else◌,
}
use olsr_go.Base.Int.{ℤ, pos}
use olsr_go.Net.{Duration}

pub record Float64 : Type 1 where
  pub Carrier : Type 0
  -- the literals 0.06, 1.0, 10.0, 16.0, 0 and -1
  pub six_hundredths : Carrier
  pub one : Carrier
  pub ten : Carrier
  pub sixteen : Carrier
  pub nought : Carrier
  pub minus_one : Carrier
  -- float64(n) of a uint8 and of an int64, and time.Duration(t)
  pub of_nat : ℕ → Carrier
  pub of_int : ℤ → Carrier
  pub to_int : Carrier → ℤ
  pub add : Carrier → Carrier → Carrier
  pub sub : Carrier → Carrier → Carrier
  pub mul : Carrier → Carrier → Carrier
  pub div : Carrier → Carrier → Carrier
  pub neg : Carrier → Carrier
  pub lt : Carrier → Carrier → Bool

-- What IEEE 754 says of `<`, `-` and the literals.
pub record IsOrdered (F : Float64) : Type 0 where
  pub irreflexive : (a : F.Carrier) → F.lt a a ≡ false
  pub transitive : (a b c : F.Carrier) → F.lt a b ≡ true → F.lt b c ≡ true → F.lt a c ≡ true
  pub neg_of_negative : (a : F.Carrier) → F.lt a F.nought ≡ true → F.lt (F.neg a) F.nought ≡ false
  pub minus_one_negative : F.lt F.minus_one F.nought ≡ true

-- time.Second, in nanoseconds
abbrev pub second : Duration
second = pos 1_000_000_000

-- val >> 4 and val & 0x0f
abbrev pub mantissa : ℕ → ℕ
mantissa val = val / 16

abbrev pub exponent : ℕ → ℕ
exponent val = bit_and val 0x0f

module _ (F : Float64) where
  -- `for i := 0; i < b; i++ { t *= 10.0 }`, by the rounds left
  times_ten : ℕ → F.Carrier → F.Carrier
  times_ten zero t = t
  times_ten (suc n) t = times_ten n (F.mul t F.ten)

  -- The seconds that the code (a, b) stands for.
  unfoldable pub code_seconds : ℕ → ℕ → F.Carrier
  unfolding times_ten
  code_seconds a b =
      times_ten b (F.mul F.six_hundredths (F.add F.one (F.div (F.of_nat a) F.sixteen)))

  unfoldable pub decode_time_val : ℕ → Duration
  unfolding code_seconds
  decode_time_val val =
      F.to_int (F.mul (code_seconds (mantissa val) (exponent val)) (F.of_int second))

  -- The distance from a code to the wanted time.
  unfoldable pub code_diff : F.Carrier → ℕ → ℕ → F.Carrier
  code_diff sec a b =
      let diff = F.sub (code_seconds a b) sec in if F.lt diff F.nought then F.neg diff else diff

  -- The variables `bestVal` and `minDiff`.
  pub record Search : Type 0 where
    pub best_val : ℕ
    pub min_diff : F.Carrier

  -- The body of the two loops.
  unfoldable pub consider : F.Carrier → ℕ → ℕ → Search → Search
  consider sec a b s =
      let diff = code_diff sec a b in
      if F.lt s.min_diff F.nought || F.lt diff s.min_diff
      then record { best_val = bit_or (a * 16 % 256) b; min_diff = diff }
      else s

  -- The loops over b and over a, by the rounds left.
  unfoldable pub for_b : F.Carrier → ℕ → ℕ → Search → Search
  for_b sec a zero s = s
  for_b sec a (suc n) s = for_b sec a n (consider sec a (15 - n) s)

  unfoldable pub for_a : F.Carrier → ℕ → Search → Search
  for_a sec zero s = s
  for_a sec (suc n) s = for_a sec n (for_b sec (15 - n) 16 s)

  unfoldable pub encode_time_val : Duration → ℕ
  unfolding for_a for_b consider code_diff code_seconds
  encode_time_val d =
      let sec = F.div (F.of_int d) (F.of_int second) in
      (for_a sec 16 (record { best_val = 0; min_diff = F.minus_one })).best_val
