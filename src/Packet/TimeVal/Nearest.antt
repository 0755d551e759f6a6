-- ===== src/Packet/TimeVal/Nearest.antt =====
-- internal/olsr/packet.go: the codes that the loops of EncodeTimeVal have visited.
use Prim.Native.Nat.{bit_or}
use olsr_go.Base.{
  ℕ, zero, suc, ◌+◌, ◌-◌, ◌*◌, ◌/◌, ◌%◌, ◌≤◌, ◌<◌, ◌≡◌, refl, Bool, true, false, ◌&&◌, ◌||◌,
  nat_beq, arith, ◌⊎◌, inl, inr, Bool-cases,
}
use olsr_go.Net.{Duration}
use native.Mathlib.Decide.{ℕ_discrete}
use olsr_go.Packet.TimeVal.{
  code_seconds, Float64, IsOrdered, second, mantissa, exponent, code_diff, Search, consider, for_b,
  for_a, encode_time_val,
}

abbrev pub pack : ℕ → ℕ → ℕ
pack a b = bit_or (a * 16 % 256) b

packs : ℕ → Bool
packs v = nat_beq (pack (v / 16) (v % 16)) v && nat_beq (exponent v) (v % 16)

-- All codes are checked by evaluation.
table : ℕ → Bool
unfolding packs
table zero = true
table (suc v) = table v && packs v

packs-table : (n v : ℕ) → v < n → table n ≡ true → packs v ≡ true
unfolding table
packs-table zero v lt h = absurd (omega arith)
packs-table (suc n) v lt h = ground (arith, packs-table n v)

full_table : table 256 ≡ true
unfolding table
full_table = refl

packs_all : (v : ℕ) → v < 256 → (pack (v / 16) (v % 16) ≡ v) × (exponent v ≡ v % 16)
unfolding packs
packs_all v h = ground (arith, packs-table 256 v h full_table)

pack_sum : (a b : ℕ) → a < 16 → b < 16 → pack a b ≡ a * 16 + b
pack_sum a b ha hb =
    let v = a * 16 + b in
    let p : v / 16 ≡ a = omega arith in
    let q : v % 16 ≡ b = omega arith in rw (p, q) at (packs_all v (omega arith)).0

pub pack_fields :
    (a b : ℕ)
    → a < 16
    → b < 16
    → (mantissa (pack a b) ≡ a) × (exponent (pack a b) ≡ b) × (pack a b < 256)
pack_fields a b ha hb = rw (pack_sum a b ha hb) (omega (arith, packs_all (a * 16 + b)))

abbrev diff_of : (F : Float64) → F.Carrier → ℕ → F.Carrier
diff_of F sec v = code_diff F sec (mantissa v) (exponent v)

-- The loops have visited the codes below `i`, and hold the best of them.
record IsBest (F : Float64) (sec : F.Carrier) (i : ℕ) (s : Search F) : Type 0 where
  start : i ≡ 0 → s.min_diff ≡ F.minus_one
  range : s.best_val < 256
  held : 0 < i → F.lt s.min_diff F.nought ≡ false
  at_best : 0 < i → s.min_diff ≡ diff_of F sec s.best_val
  least : (v : ℕ) → v < i → F.lt (diff_of F sec v) s.min_diff ≡ false

code_fields :
    (a b : ℕ) → a < 16 → b < 16 → (mantissa (a * 16 + b) ≡ a) × (exponent (a * 16 + b) ≡ b)
code_fields a b ha hb = omega (arith, packs_all (a * 16 + b))

module _ (F : Float64) (laws : IsOrdered F) (sec : F.Carrier) where
  diff_nonneg : (a b : ℕ) → F.lt (code_diff F sec a b) F.nought ≡ false
  unfolding code_diff
  diff_nonneg a b =
      let diff = F.sub (code_seconds F a b) sec in
      elim (Bool-cases (F.lt diff F.nought)) [
        | inl e ↦ rw e (laws.neg_of_negative diff e)
        | inr e ↦ rw e e
      ]

  module _ (a b i : ℕ) (s : Search F) (ha : a < 16) (hb : b < 16) (hi : i ≡ a * 16 + b)
      (h : IsBest F sec i s) where
    new_diff : diff_of F sec i ≡ code_diff F sec a b
    new_diff = let (p, q) = code_fields a b ha hb in rw (hi, p, q)

    -- A code seen before is not nearer than one that beats the best so far.
    least_beaten :
        (v : ℕ)
        → v < i
        → F.lt (code_diff F sec a b) s.min_diff ≡ true
        → F.lt (diff_of F sec v) (code_diff F sec a b) ≡ false
    least_beaten v hv better = elim (Bool-cases (F.lt (diff_of F sec v) (code_diff F sec a b))) [
      | inl e ↦ cc (laws.transitive _ _ _ e better, h.least v hv)
      | inr e ↦ e
    ]

    first_or_better :
        F.lt s.min_diff F.nought || F.lt (code_diff F sec a b) s.min_diff ≡ true
        → (i ≡ 0) ⊎ (F.lt (code_diff F sec a b) s.min_diff ≡ true)
    first_or_better t = ground (arith, h.held)

    not_first :
        F.lt s.min_diff F.nought || F.lt (code_diff F sec a b) s.min_diff ≡ false
        → (0 < i) × (F.lt (code_diff F sec a b) s.min_diff ≡ false)
    not_first t = ground (arith, h.start, laws.minus_one_negative)

    least_taken :
        (i ≡ 0) ⊎ (F.lt (code_diff F sec a b) s.min_diff ≡ true)
        → (v : ℕ) → v < suc i
        → F.lt (diff_of F sec v) (code_diff F sec a b) ≡ false
    least_taken (inl e) v hv = let p : v ≡ i = omega arith in rw (p, new_diff) (laws.irreflexive _)
    least_taken (inr better) v hv = elim (ℕ_discrete v i) [
      | yes p ↦ rw (p, new_diff) (laws.irreflexive _)
      | no p ↦ least_beaten v (omega arith) better
    ]

    least_kept :
        F.lt (code_diff F sec a b) s.min_diff ≡ false
        → (v : ℕ) → v < suc i
        → F.lt (diff_of F sec v) s.min_diff ≡ false
    least_kept worse v hv = elim (ℕ_discrete v i) [
      | yes p ↦ rw (p, new_diff) worse
      | no p ↦ h.least v (omega arith)
    ]

    consider-IsBest : IsBest F sec (suc i) (consider F sec a b s)
    unfolding consider
    consider-IsBest =
        let (pa, pb, pr) = pack_fields a b ha hb in
        elim (Bool-cases (F.lt s.min_diff F.nought || F.lt (code_diff F sec a b) s.min_diff)) [
          | inl t ↦ rw t (record {
            start = λ e. absurd (omega arith);
            range = pr;
            held = λ _. diff_nonneg a b;
            at_best = λ _. rw (pa, pb);
            least = least_taken (first_or_better t);
          })
          | inr t ↦
              let (p, q) = not_first t in
              rw t (record {
                start = λ e. absurd (omega arith);
                range = h.range;
                held = λ _. h.held p;
                at_best = λ _. h.at_best p;
                least = least_kept q;
              })
        ]

  for_b-IsBest :
      (a n : ℕ) (s : Search F)
      → a < 16
      → n ≤ 16
      → IsBest F sec (a * 16 + (16 - n)) s
      → IsBest F sec (a * 16 + 16) (for_b F sec a n s)
  unfolding for_b
  for_b-IsBest a zero s ha hn h = h
  for_b-IsBest a (suc n) s ha hn h =
      let i : ℕ = a * 16 + (15 - n) in
      let e : suc i ≡ a * 16 + (16 - n) = omega arith in
      let e' : a * 16 + (16 - suc n) ≡ i = omega arith in
      for_b-IsBest a n (consider F sec a (15 - n) s) ha (omega arith)
        (rw e at (consider-IsBest a (15 - n) i s ha (omega arith) refl (rw e' at h)))

  for_a-IsBest :
      (n : ℕ) (s : Search F)
      → n ≤ 16
      → IsBest F sec ((16 - n) * 16) s
      → IsBest F sec 256 (for_a F sec n s)
  unfolding for_a
  for_a-IsBest zero s hn h = h
  for_a-IsBest (suc n) s hn h =
      let e : (16 - suc n) * 16 ≡ (15 - n) * 16 + (16 - 16) = omega arith in
      let e' : (15 - n) * 16 + 16 ≡ (16 - n) * 16 = omega arith in
      for_a-IsBest n (for_b F sec (15 - n) 16 s) (omega arith)
        (rw e' at (for_b-IsBest (15 - n) 16 s (omega arith) (omega arith) (rw e at h)))

IsBest-start :
    (F : Float64) (sec : F.Carrier)
    → IsBest F sec 0 (record { best_val = 0; min_diff = F.minus_one })
IsBest-start F sec = record {
  start = λ _. refl;
  range = omega arith;
  held = λ p. absurd (omega arith);
  at_best = λ p. absurd (omega arith);
  least = λ v p. absurd (omega arith);
}

-- EncodeTimeVal returns a byte, and no byte stands for a time that is nearer to `d`.
pub encode_time_val_nearest :
    (F : Float64) (laws : IsOrdered F) (d : Duration) (v : ℕ)
    → v < 256
    → (encode_time_val F d < 256)
      × (F.lt (code_diff F (F.div (F.of_int d) (F.of_int second)) (mantissa v) (exponent v)) (
            code_diff F
              (F.div (F.of_int d) (F.of_int second))
              (mantissa (encode_time_val F d))
              (exponent (encode_time_val F d)))
          ≡ false)
unfolding encode_time_val
encode_time_val_nearest F laws d v hv =
    let sec = F.div (F.of_int d) (F.of_int second) in
    let best = for_a-IsBest F laws sec 16 _ (omega arith) (IsBest-start F sec) in
    (best.range, rw (best.at_best (omega arith)) at (best.least v hv))

pub encode_time_val-lt :
    (F : Float64) (laws : IsOrdered F) (d : Duration) → encode_time_val F d < 256
encode_time_val-lt F laws d = (encode_time_val_nearest F laws d 0 (omega arith)).0
