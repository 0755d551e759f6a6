-- ===== src/Zebra/Ipmr.antt =====
-- internal/zebra/zapi_multicast.go: the messages that BuildIpmrMessage makes, read back.
use olsr_go.Base.{
  ℕ, suc, ◌+◌, ◌*◌, ◌/◌, ◌%◌, ◌<◌, ◌≡◌, refl, ap, inl, inr, Option, some, List, [], ◌∷◌, ◌++◌, ltb,
  length, arith, Bool-cases, Option-cases, map, append-nil, ◌⊎◌,
}
use olsr_go.Base.Int.{ℤ, pos, negsuc, pos_part}
use olsr_go.Net.{Ip, to4}
use olsr_go.Zebra.{ZapiError, be32}
use olsr_go.Zebra.Message.{message_header, with_size}
use olsr_go.Zebra.Multicast.{write_oifs, write_ipmr_body, ipmr_sized, build_ipmr_message}
use olsr_go.Zebra.Reader.{read_u32, expect, read_header, read_oifs, IpmrRequest, read_ipmr}
use olsr_go.Zebra.RoundTrip.{read_bytes-append, length-to4, read_header-with_size}

-- An interface index as a uint32.
abbrev pub uint32_of : ℤ → ℕ
uint32_of i = pos_part i % 4294967296

oifs-cases :
    (r : List ℕ ⊎ ZapiError) → ((bs : List ℕ) × (r ≡ inl bs)) ⊎ ((e : ZapiError) × (r ≡ inr e))
oifs-cases (inl bs) = inl (bs, refl)
oifs-cases (inr e) = inr (e, refl)

-- One interface and its TTL.
read_oifs_step :
    (n i : ℕ) (bs : List ℕ) (oifs : List ℕ) (rest : List ℕ)
    → read_oifs n bs ≡ some (oifs, rest)
    → read_oifs (suc n) (be32 i ++ (be32 1 ++ bs)) ≡ some ((i % 4294967296) ∷ oifs, rest)
unfolding read_oifs read_u32 expect
read_oifs_step n i bs oifs rest more = rw more (ap (λ (k : ℕ). some (k ∷ oifs, rest)) (omega arith))

read_oifs-write_oifs :
    (oifs : List ℤ) (bs rest : List ℕ)
    → write_oifs oifs ≡ inl bs
    → read_oifs (length oifs) (bs ++ rest) ≡ some (map uint32_of oifs, rest)
unfolding write_oifs read_oifs
read_oifs-write_oifs [] bs rest written = let e : [] ≡ bs = cc in rw (← e) refl
read_oifs-write_oifs (negsuc i ∷ oifs) bs rest written = absurd (cc)
read_oifs-write_oifs (pos i ∷ oifs) bs rest written = elim (oifs-cases (write_oifs oifs)) [
  | inr (x, e) ↦ absurd (let g = rw (e, write_oifs) at written in cc)
  | inl (more, e) ↦
      let same : be32 i ++ (be32 1 ++ more) ≡ bs = (let g = rw (e, write_oifs) at written in cc) in
      rw (← same) (
        read_oifs_step (length oifs) i (more ++ rest) (map uint32_of oifs) rest
          (read_oifs-write_oifs oifs more rest e))
]

same_request :
    (cmd : ℕ) (src4 grp4 oifs : List ℕ) {i j : ℕ}
    → i ≡ j
    → ◌≡◌ {A = Option IpmrRequest}
        (some (record { ipmr_cmd = cmd; source = src4; group = grp4; iif = i; oifs = oifs }))
        (some (record { ipmr_cmd = cmd; source = src4; group = grp4; iif = j; oifs = oifs }))
same_request cmd src4 grp4 oifs p k =
    some (record { ipmr_cmd = cmd; source = src4; group = grp4; iif = p k; oifs = oifs })

-- No index is negative.
abbrev pub AreIndices : List ℤ → Type 0
AreIndices [] = Unit
AreIndices (pos i ∷ is) = AreIndices is
AreIndices (negsuc i ∷ is) = ⊥

write_oifs-AreIndices : (oifs : List ℤ) (bs : List ℕ) → write_oifs oifs ≡ inl bs → AreIndices oifs
unfolding write_oifs
write_oifs-AreIndices [] bs written = tt
write_oifs-AreIndices (negsuc i ∷ oifs) bs written = cc
write_oifs-AreIndices (pos i ∷ oifs) bs written = elim (oifs-cases (write_oifs oifs)) [
  | inr (x, e) ↦ absurd (let g = rw (e, write_oifs) at written in cc)
  | inl (more, e) ↦ write_oifs-AreIndices oifs more e
]

read_ipmr_lem :
    (cmd : ℕ) (src4 grp4 : List ℕ) (iif : ℕ) (oifs : List ℤ) (written bytes : List ℕ)
    → length src4 ≡ 4
    → length grp4 ≡ 4
    → length oifs < 65536
    → write_oifs oifs ≡ inl written
    → read_header bytes
      ≡ some (cmd, 2 ∷ src4 ++ (grp4 ++ (be32 iif ++ (be32 (length oifs) ++ written))))
    → read_ipmr bytes
      ≡ some (record {
        ipmr_cmd = cmd;
        source = src4;
        group = grp4;
        iif = iif % 4294967296;
        oifs = map uint32_of oifs;
      })
unfolding read_ipmr expect read_u32
read_ipmr_lem cmd src4 grp4 iif oifs written bytes len_s len_g small wrote header =
    rw (header, read_bytes-append 4 src4 _ len_s)
      (rw (read_bytes-append 4 grp4 _ len_g) (
        let count : length oifs / 16777216 % 256 * 16777216
              + length oifs / 65536 % 256 * 65536
              + length oifs / 256 % 256 * 256
              + length oifs % 256
            ≡ length oifs =
          omega arith in
        let all = rw (append-nil written) at (read_oifs-write_oifs oifs written [] wrote) in
        rw (count, all) (same_request cmd src4 grp4 (map uint32_of oifs) (omega arith))))

abbrev pub ipmr_request : ℕ → Ip → Ip → ℕ → List ℤ → IpmrRequest
ipmr_request cmd src4 grp4 i oifs = record {
  ipmr_cmd = cmd;
  source = src4;
  group = grp4;
  iif = i % 4294967296;
  oifs = map uint32_of oifs;
}

read_ipmr-write_ipmr_body :
    (cmd : ℕ) (src4 grp4 : Ip) (iif : ℤ) (oifs : List ℤ) (bytes : List ℕ)
    → cmd < 65536
    → length src4 ≡ 4
    → length grp4 ≡ 4
    → ipmr_sized cmd (write_ipmr_body src4 grp4 iif oifs) ≡ inl bytes
    → (i : ℕ) × (iif ≡ pos i)
      × AreIndices oifs
      × (read_ipmr bytes ≡ some (ipmr_request cmd src4 grp4 i oifs))
unfolding write_ipmr_body
read_ipmr-write_ipmr_body cmd src4 grp4 (negsuc i) oifs bytes small ls lg built = absurd (cc)
read_ipmr-write_ipmr_body cmd src4 grp4 (pos i) oifs bytes small ls lg built =
    elim (Bool-cases (ltb 65535 (length oifs))) [
      | inl many ↦ absurd (let g = rw many at built in cc)
      | inr few ↦ elim (oifs-cases (write_oifs oifs)) [
        | inr (x, e) ↦
            absurd (let g = rw few at built in let g' = rw (e, write_ipmr_body) at g in cc)
        | inl (written, e) ↦
            let g = rw few at built in
            let whole : with_size (
                  message_header cmd
                  ++ (2 ∷ src4 ++ (grp4 ++ (be32 i ++ (be32 (length oifs) ++ written)))))
                ≡ inl bytes =
              rw (e, write_ipmr_body) at g in
            (
              i,
              refl,
              write_oifs-AreIndices oifs written e,
              read_ipmr_lem cmd src4 grp4 i oifs written bytes ls lg (ground (arith, few)) e
                  (read_header-with_size cmd _ bytes small whole),
            )
      ]
    ]

-- A message that BuildIpmrMessage makes reads back as its request: the command, the source and the
-- group as four bytes each, the incoming interface and each outgoing one as a uint32 and with a TTL of 1;
-- and the size in its header is its length. A message is made only for an IPv4 source and group and for
-- interfaces that are not negative.
pub read_ipmr-build_ipmr_message :
    (cmd : ℕ) (src grp : Ip) (iif : ℤ) (oifs : List ℤ) (bytes : List ℕ)
    → cmd < 65536
    → build_ipmr_message cmd src grp iif oifs ≡ inl bytes
    → (src4 : Ip) × (grp4 : Ip) × (i : ℕ) × (to4 src ≡ some src4)
      × (to4 grp ≡ some grp4)
      × (iif ≡ pos i)
      × AreIndices oifs
      × (read_ipmr bytes ≡ some (ipmr_request cmd src4 grp4 i oifs))
unfolding build_ipmr_message
read_ipmr-build_ipmr_message cmd src grp iif oifs bytes small built =
    elim (Option-cases (to4 src)) [
      | inl none_src ↦ absurd (let g = rw none_src at built in cc)
      | inr (src4, e) ↦ elim (Option-cases (to4 grp)) [
        | inl none_grp ↦ absurd (let g = rw (e, none_grp) at built in cc)
        | inr (grp4, e') ↦
            let x =
              read_ipmr-write_ipmr_body cmd src4 grp4 iif oifs bytes small (length-to4 src e)
                (length-to4 grp e') (rw (e, e') at built) in
            (src4, grp4, x.0, e, e', x.1, x.2, x.3)
      ]
    ]
