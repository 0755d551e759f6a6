-- ===== src/Daemon/Interfaces.antt =====
-- cmd/olsrd/daemon.go: when findOutgoingInterface panics.
use mathlib.Core.Logic.{◌↔◌}
use olsr_go.Base.{
  ◌≡◌, refl, inl, inr, Bool, true, false, ◌||◌, Option, none, some, List, [], ◌∷◌, if◌then◌else◌,
  Text, text_eq, ◌==◌, take, Bool-cases, Option-cases, ok, panic,
}
use olsr_go.Net.{Ip, to4}
use olsr_go.Net.Parse.{parse_ip}
use olsr_go.Neighbor.Mpr.{is_some}
use olsr_go.Config.{Config}
use olsr_go.Daemon.Install.{
  InterfaceInfo, ipv4_of, shares_prefix, matching_interface, find_outgoing_interface,
}

-- Some address of an interface, and of some interface, is an IPv4 address.
abbrev pub has_ipv4 : List Text → Bool
has_ipv4 [] = false
has_ipv4 (s ∷ ss) = is_some (ipv4_of s) || has_ipv4 ss

abbrev pub any_ipv4 : List InterfaceInfo → Bool
any_ipv4 [] = false
any_ipv4 (iface ∷ ifaces) = has_ipv4 iface.ips || any_ipv4 ifaces

shares_prefix_returns :
    (hop : Ip) (ss : List Text) → (b : Bool) × (shares_prefix (some hop) ss ≡ ok b)
unfolding shares_prefix
shares_prefix_returns hop [] = (false, refl)
shares_prefix_returns hop (s ∷ ss) =
    let (b, ih) = shares_prefix_returns hop ss in
    elim (Option-cases (ipv4_of s)) [
      | inl other ↦ (b, (rw (other, shares_prefix) ih))
      | inr (ip4, e) ↦ elim (Bool-cases (take 3 ip4 == take 3 hop)) [
        | inl same ↦ (true, (rw (e, shares_prefix) (rw same refl)))
        | inr differs ↦ (b, (rw (e, shares_prefix) (rw differs ih)))
      ]
    ]

matching_interface_returns :
    (hop : Ip) (ifaces : List InterfaceInfo)
    → (found : Option Text) × (matching_interface (some hop) ifaces ≡ ok found)
unfolding matching_interface
matching_interface_returns hop [] = (none, refl)
matching_interface_returns hop (iface ∷ ifaces) =
    let (found, ih) = matching_interface_returns hop ifaces in
    let (b, e) = shares_prefix_returns hop iface.ips in
    elim (Bool-cases b) [
      | inl yes_b ↦ (some iface.name, (rw (e, yes_b) refl))
      | inr no_b ↦ (found, (rw (e, no_b) ih))
    ]

shares_prefix_nil :
    (ss : List Text) → shares_prefix none ss ≡ (if has_ipv4 ss then panic else ok false)
unfolding shares_prefix
shares_prefix_nil [] = refl
shares_prefix_nil (s ∷ ss) = elim (Option-cases (ipv4_of s)) [
  | inl other ↦ rw (other, shares_prefix) (shares_prefix_nil ss)
  | inr (ip4, e) ↦ rw (e, shares_prefix) refl
]

matching_interface_nil :
    (ifaces : List InterfaceInfo)
    → matching_interface none ifaces ≡ (if any_ipv4 ifaces then panic else ok none)
unfolding matching_interface
matching_interface_nil [] = refl
matching_interface_nil (iface ∷ ifaces) =
    let here = shares_prefix_nil iface.ips in
    let ih = matching_interface_nil ifaces in
    elim (Bool-cases (has_ipv4 iface.ips)) [
      | inl some_ipv4 ↦ rw (here, some_ipv4) refl
      | inr no_ipv4 ↦ rw (here, no_ipv4) ih
    ]

-- findOutgoingInterface panics exactly if the next hop is an address that is no IPv4 address and some
-- interface has an IPv4 address.
pub find_outgoing_interface_panics :
    (cfg : Config) (ifaces : List InterfaceInfo) (next_hop : Text)
    → (find_outgoing_interface cfg ifaces next_hop ≡ panic)
      ↔ ((ip : Ip) × ((parse_ip next_hop ≡ some ip) × ((to4 ip ≡ none) × (any_ipv4 ifaces ≡ true))))
unfolding find_outgoing_interface
find_outgoing_interface_panics cfg ifaces next_hop = elim (Option-cases (parse_ip next_hop)) [
  | inl bad ↦ (
    λ p. absurd (let q = rw (bad, find_outgoing_interface) at p in cc),
    λ (ip, (parsed, rest)). absurd (let q = rw bad at parsed in cc),
  )
  | inr (ip, e) ↦ elim (Option-cases (to4 ip)) [
    | inr (ip4, v4) ↦
        let (found, returns) = matching_interface_returns ip4 ifaces in
        (
          λ p. absurd (
              let q = rw (e, find_outgoing_interface) at p in let q' = rw (v4, returns) at q in cc),
          λ (ip', (parsed, (v6, any))).
              absurd
                (let same : ip' ≡ ip = cc in let v6' = rw same at v6 in let q = rw v4 at v6' in cc),
        )
    | inl v6 ↦
        let nil = matching_interface_nil ifaces in
        elim (Bool-cases (any_ipv4 ifaces)) [
          | inl any ↦ (
            λ p. (ip, (e, (v6, any))),
            λ x. rw (e, find_outgoing_interface) (rw (v6, nil, any) refl),
          )
          | inr without ↦ (
            λ p. absurd (
                let q = rw (e, find_outgoing_interface) at p in
                let q' = rw (v6, nil, without) at q in cc),
            λ (ip', (parsed, (v6', any))). absurd (let q = rw without at any in cc),
          )
        ]
  ]
]
