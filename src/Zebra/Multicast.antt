-- ===== src/Zebra/Multicast.antt =====
-- internal/zebra/zapi_multicast.go: BuildIpmrMessage.
use olsr_go.Base.{
  ℕ, Option, none, some, List, [], ◌∷◌, ◌++◌, ltb, length, if◌then◌else◌, ◌⊎◌, inl, inr,
}
use olsr_go.Base.Int.{ℤ, pos, negsuc}
use olsr_go.Net.{Ip, to4}
use olsr_go.Zebra.{ZapiError, not_ipv4, bad_iif, bad_oif_count, bad_oif, be32}
use olsr_go.Zebra.Message.{message_header, with_size}

-- The loop over the outgoing interfaces, each with a TTL of 1.
unfoldable pub write_oifs : List ℤ → List ℕ ⊎ ZapiError
write_oifs [] = inl []
write_oifs (negsuc i ∷ oifs) = inr bad_oif
write_oifs (pos i ∷ oifs) = elim (write_oifs oifs) [
  | inl rest ↦ inl (be32 i ++ (be32 1 ++ rest))
  | inr e ↦ inr e
]

unfoldable pub write_ipmr_body : Ip → Ip → ℤ → List ℤ → List ℕ ⊎ ZapiError
unfolding write_oifs
write_ipmr_body src4 grp4 (negsuc i) oifs = inr bad_iif
write_ipmr_body src4 grp4 (pos i) oifs =
    if ltb 65535 (length oifs) then inr bad_oif_count else elim (write_oifs oifs) [
      | inl rest ↦ inl (2 ∷ src4 ++ (grp4 ++ (be32 i ++ (be32 (length oifs) ++ rest))))
      | inr e ↦ inr e
    ]

abbrev pub ipmr_sized : ℕ → List ℕ ⊎ ZapiError → List ℕ ⊎ ZapiError
ipmr_sized cmd (inl body) = with_size (message_header cmd ++ body)
ipmr_sized cmd (inr e) = inr e

abbrev pub ipmr_message : ℕ → Option Ip → Option Ip → ℤ → List ℤ → List ℕ ⊎ ZapiError
ipmr_message cmd none grp iif oifs = inr not_ipv4
ipmr_message cmd (some src4) none iif oifs = inr not_ipv4
ipmr_message cmd (some src4) (some grp4) iif oifs =
    ipmr_sized cmd (write_ipmr_body src4 grp4 iif oifs)

unfoldable pub build_ipmr_message : ℕ → Ip → Ip → ℤ → List ℤ → List ℕ ⊎ ZapiError
unfolding write_ipmr_body
build_ipmr_message cmd src grp iif oifs = ipmr_message cmd (to4 src) (to4 grp) iif oifs
