-- ===== src/Packet/Bytes.antt =====
-- What internal/olsr/packet.go uses of Go's slices and of encoding/binary: big-endian writes and
-- reads, indexing and slicing with their run-time panics.
use olsr_go.Base.{
  ℕ, suc, ◌+◌, ◌-◌, ◌*◌, ◌/◌, ◌%◌, ◌≤◌, ◌<◌, ◌≡◌, refl, ap, ◌∙◌, ◌&&◌, ◌⊎◌, List, [], ◌∷◌, ◌++◌,
  leb, length, get_elem?, set, take, drop, length-append, length-take, length-drop, if◌then◌else◌,
  arith, Outcome, ok, panic, or_panic,
}

-- binary.Write(buf, binary.BigEndian, uint16(n))
abbrev pub be16 : ℕ → List ℕ
be16 n = (n / 256 % 256) ∷ (n % 256) ∷ []

-- binary.BigEndian.PutUint16(bs[i:i+2], uint16(n))
abbrev pub put_uint16 : List ℕ → ℕ → ℕ → List ℕ
put_uint16 bs i n = set (set bs i (n / 256 % 256)) (suc i) (n % 256)

-- binary.BigEndian.Uint16(bs)
abbrev pub uint16 : List ℕ → Outcome ℕ
uint16 (a ∷ b ∷ _) = ok (a * 256 + b)
uint16 _ = panic

-- bs[i]
unfoldable pub index : List ℕ → ℕ → Outcome ℕ
index bs i = or_panic (get_elem? bs i)

-- bs[lo:hi]. (Go also allows `hi` up to the capacity: no call here passes the length.)
unfoldable pub slice : List ℕ → ℕ → ℕ → Outcome (List ℕ)
slice bs lo hi = if leb lo hi && leb hi (length bs) then ok (take (hi - lo) (drop lo bs)) else panic

get_elem?-append :
    (pre ys : List ℕ) (k : ℕ) → get_elem? (pre ++ ys) (length pre + k) ≡ get_elem? ys k
get_elem?-append [] ys k = ap (get_elem? ys) (omega arith)
get_elem?-append (p ∷ pre) ys k =
    let e : suc (length pre) + k ≡ suc (length pre + k) = omega arith in
    rw e (get_elem?-append pre ys k)

pub drop-append : (pre ys : List ℕ) (k : ℕ) → drop (length pre + k) (pre ++ ys) ≡ drop k ys
drop-append [] ys k = ap (λ n. drop n ys) (omega arith)
drop-append (p ∷ pre) ys k =
    let e : suc (length pre) + k ≡ suc (length pre + k) = omega arith in rw e (drop-append pre ys k)

pub take-append : (xs ys : List ℕ) → take (length xs) (xs ++ ys) ≡ xs
take-append [] ys = refl
take-append (x ∷ xs) ys = ap (λ l. x ∷ l) (take-append xs ys)

-- A read behind a prefix is a read of what follows it.
pub index-append :
    (pre ys : List ℕ) (i k : ℕ) → i ≡ length pre + k → index (pre ++ ys) i ≡ index ys k
unfolding index
index-append pre ys i k e = rw (e, get_elem?-append pre ys k)

pub slice-append :
    (pre ys : List ℕ) (lo hi a b : ℕ)
    → lo ≡ length pre + a
    → hi ≡ length pre + b
    → slice (pre ++ ys) lo hi ≡ slice ys a b
unfolding slice
slice-append pre ys lo hi a b e f =
    let n : length pre + b - (length pre + a) ≡ b - a = omega arith in
    rw (e, f, length-append pre ys, drop-append pre ys a, n) (ground arith)

slice-front : (mid rest : List ℕ) → slice (mid ++ rest) 0 (length mid) ≡ ok mid
unfolding slice
slice-front mid rest =
    let n : length mid - 0 ≡ length mid = omega arith in
    rw (length-append mid rest, n, take-append mid rest) (ground arith)

pub slice-middle :
    (pre mid rest : List ℕ) (lo hi : ℕ)
    → lo ≡ length pre
    → hi ≡ length pre + length mid
    → slice (pre ++ (mid ++ rest)) lo hi ≡ ok mid
slice-middle pre mid rest lo hi e f =
    slice-append pre (mid ++ rest) lo hi 0 (length mid) (omega arith) f ∙ slice-front mid rest

-- A slice that Go allows has the length that its bounds say.
pub length-slice :
    (bs : List ℕ) (lo hi : ℕ) {r : List ℕ}
    → slice bs lo hi ≡ ok r
    → (lo ≤ hi) × (hi ≤ length bs) × (length r ≡ hi - lo)
unfolding slice
length-slice bs lo hi h = ground (arith, length-take (hi - lo) (drop lo bs), length-drop lo bs)

-- A slice expression panics unless its bounds are in order and in range.
pub slice-cases :
    (bs : List ℕ) (lo hi : ℕ) → ((lo ≤ hi) × (hi ≤ length bs)) ⊎ (slice bs lo hi ≡ panic)
unfolding slice
slice-cases bs lo hi = ground arith

pub slice-panic : (bs : List ℕ) (lo hi : ℕ) → hi < lo → slice bs lo hi ≡ panic
unfolding slice
slice-panic bs lo hi h = ground arith

-- Two bytes of a uint16 give it back.
pub uint16-be16 : (n : ℕ) → n < 65536 → uint16 (be16 n) ≡ ok n
uint16-be16 n h = ap ok (omega arith)
