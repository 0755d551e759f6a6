-- ===== src/Mroute/Loops.antt =====
-- internal/mroute/loopprevention_linux.go: the two managers that let a stream in from its next hop
-- only, by nftables rules or by verdicts on queued packets. What `nft` does to its tables is an argument.
use olsr_go.Base.{
  ℕ, ◌+◌, ◌/◌, ◌%◌, Bool, true, false, ◌&&◌, Option, none, some, List, [], ◌∷◌, ◌++◌, ltb, nat_beq,
  ◌==◌, length, take, drop, if◌then◌else◌, Text, codes, text_eq, split_on, to_lower,
}
use olsr_go.Base.Map.{GoMap, lookup, insert, delete}
use olsr_go.Net.{v4_in_v6_prefix, ip_string}
use olsr_go.Mroute.Arp.{resolve_mac_from_arp}

-- The fields that both managers keep: the routes take "source:group" to a MAC.
pub record Manager : Type 0 where
  pub interfaces : List Text
  pub routes : GoMap Text Text

-- Arguments of `nft`.
abbrev pub Command : Type 0
Command = List Text

abbrev in_chain : Command → Command
in_chain rule = codes "inet" ∷ codes "molsr_filter" ∷ codes "prerouting" ∷ rule

abbrev pub delete_table : Command
delete_table = codes "delete" ∷ codes "table" ∷ codes "inet" ∷ codes "molsr_filter" ∷ []

abbrev pub add_table : Command
add_table = codes "add" ∷ codes "table" ∷ codes "inet" ∷ codes "molsr_filter" ∷ []

abbrev pub add_chain : Command
add_chain =
    codes "add"
    ∷ codes "chain"
    ∷ in_chain (codes "{ type filter hook prerouting priority -150 ; }" ∷ [])

abbrev pub flush_chain : Command
flush_chain = codes "flush" ∷ codes "chain" ∷ in_chain []

abbrev add_rule : Text → Command → Command
add_rule iface rule = codes "add" ∷ codes "rule" ∷ in_chain (codes "iifname" ∷ iface ∷ rule)

abbrev from_to : Text → Text → Command → Command
from_to src grp rule = codes "ip" ∷ codes "saddr" ∷ src ∷ codes "ip" ∷ codes "daddr" ∷ grp ∷ rule

abbrev pub accept_rule : Text → Text → Text → Text → Command
accept_rule iface src grp mac =
    add_rule iface (from_to src grp (codes "ether" ∷ codes "saddr" ∷ mac ∷ codes "accept" ∷ []))

abbrev pub drop_rule : Text → Text → Text → Command
drop_rule iface src grp = add_rule iface (from_to src grp (codes "drop" ∷ []))

abbrev pub queue_rule : Text → Command
queue_rule iface = add_rule iface (
    codes "ip" ∷ codes "daddr" ∷ codes "224.0.0.0/4" ∷ codes "queue" ∷ codes "num" ∷ codes "1" ∷ [])

abbrev pub route_key : Text → Text → Text
route_key src grp = src ++ b':' ∷ grp

-- strings.Split(s, ":"): the first part and the others.
abbrev pub split_colon : Text → Text × List Text
split_colon s = split_on 58 s

-- The source and the group of a key of two parts.
abbrev pub key_parts : Text × List Text → Option (Text × Text)
key_parts (src, []) = none
key_parts (src, grp ∷ []) = some (src, grp)
key_parts (src, grp ∷ _ ∷ _) = none

hex_of : ℕ → ℕ
hex_of n = if ltb n 10 then 48 + n else 87 + n

-- fmt.Sprintf("%02x", b) for each byte, joined by ":".
unfoldable pub format_mac : List ℕ → Text
unfolding hex_of
format_mac [] = []
format_mac (b ∷ []) = hex_of (b / 16) ∷ hex_of (b % 16) ∷ []
format_mac (b ∷ c ∷ mac) = hex_of (b / 16) ∷ hex_of (b % 16) ∷ b':' ∷ format_mac (c ∷ mac)

-- Both managers keep a route by the MAC of its next hop, or fail without it.
abbrev pub kept : Text → Text → Option Text → Manager → Option Manager
kept src grp none m = none
kept src grp (some mac) m =
    some (record m { routes = insert (route_key src grp) (to_lower mac) m.routes })

module _ {Nft : Type 0} (run : Command → Nft → Nft × Bool) where
  abbrev run_ignored : Command → Nft → Nft
  run_ignored c n = (run c n).0

  -- One interface of one route, and then all of them.
  abbrev pub apply_to : Text → Text → Text → Text → Nft → Nft
  apply_to src grp mac iface n =
      run_ignored (drop_rule iface src grp) (run_ignored (accept_rule iface src grp mac) n)

  unfoldable pub apply_route : Text → Text → Text → List Text → Nft → Nft
  apply_route src grp mac [] n = n
  apply_route src grp mac (iface ∷ ifaces) n =
      apply_route src grp mac ifaces (apply_to src grp mac iface n)

  abbrev pub apply_parts : Option (Text × Text) → Text → List Text → Nft → Nft
  apply_parts none mac ifaces n = n
  apply_parts (some (src, grp)) mac ifaces n = apply_route src grp mac ifaces n

  unfoldable pub apply_routes : GoMap Text Text → List Text → Nft → Nft
  unfolding apply_route
  apply_routes [] ifaces n = n
  apply_routes ((key, mac) ∷ routes) ifaces n =
      apply_routes routes ifaces (apply_parts (key_parts (split_colon key)) mac ifaces n)

  abbrev pub apply_rules : Manager → Nft → Nft
  apply_rules m n = apply_routes m.routes m.interfaces (run_ignored flush_chain n)

  -- The table and its chain; the flag says that neither failed.
  abbrev pub make_chain : Nft → Nft × Bool
  make_chain n =
      let table = run add_table (run_ignored delete_table n) in
      if table.1 then run add_chain table.0 else table

  -- NFTablesManager
  abbrev pub start_nftables : List Text → Manager × Nft → (Manager × Nft) × Bool
  start_nftables interfaces (m, n) =
      let made = make_chain n in ((record m { interfaces = interfaces }, made.0), made.1)

  abbrev pub rules_added : Option Manager → Manager × Nft → (Manager × Nft) × Bool
  rules_added none s = (s, false)
  rules_added (some m') (m, n) = ((m', apply_rules m' n), true)

  abbrev pub add_nftables :
      Option (List Text) → Text → Text → Text → Manager × Nft → (Manager × Nft) × Bool
  add_nftables arp src grp next_hop (m, n) =
      rules_added (kept src grp (resolve_mac_from_arp arp next_hop) m) (m, n)

  abbrev pub delete_nftables : Text → Text → Manager × Nft → Manager × Nft
  delete_nftables src grp (m, n) =
      let m' = record m { routes = delete (route_key src grp) m.routes } in (m', apply_rules m' n)

  -- NFQueueManager: a queue rule for each interface, until one fails. `opened` is what nfqueue.Open returns.
  unfoldable pub add_queue_rules : List Text → Nft → Nft × Bool
  add_queue_rules [] n = (n, true)
  add_queue_rules (iface ∷ ifaces) n =
      let added = run (queue_rule iface) n in
      let rest = add_queue_rules ifaces added.0 in if added.1 then rest else added

  abbrev pub start_nfqueue : Bool → List Text → Manager × Nft → (Manager × Nft) × Bool
  start_nfqueue opened interfaces (m, n) =
      let m' = record m { interfaces = interfaces } in
      let made = make_chain n in
      let queues = add_queue_rules interfaces made.0 in
      ((m', (if made.1 then queues.0 else made.0)), (made.1 && queues.1) && opened)

  -- Stop, of both.
  abbrev pub stop_rules : Nft → Nft
  stop_rules n = run_ignored delete_table n

abbrev pub queue_added : Option Manager → Manager → Manager × Bool
queue_added none m = (m, false)
queue_added (some m') m = (m', true)

abbrev pub add_nfqueue : Option (List Text) → Text → Text → Text → Manager → Manager × Bool
add_nfqueue arp src grp next_hop m =
    queue_added (kept src grp (resolve_mac_from_arp arp next_hop) m) m

abbrev pub delete_nfqueue : Text → Text → Manager → Manager
delete_nfqueue src grp m = record m { routes = delete (route_key src grp) m.routes }

-- What hookFunc reads of nfqueue.Attribute; `none` is a nil pointer.
pub record Attribute : Type 0 where
  pub packet_id : Option ℕ
  pub payload : Option (List ℕ)
  pub hw_addr : Option (List ℕ)

-- net.IPv4(payload[i], ..., payload[i+3]).String()
abbrev pub address_at : ℕ → List ℕ → Text
address_at i payload = ip_string (v4_in_v6_prefix ++ take 4 (drop i payload))

-- The verdict on a packet whose source and group have this MAC in the routes; `true` accepts.
abbrev pub verdict_of : Option Text → Option (List ℕ) → Bool
verdict_of none hw = true
verdict_of (some expected) none = false
verdict_of (some expected) (some mac) = format_mac mac == expected

abbrev pub payload_verdict : List ℕ → Option (List ℕ) → Manager → Bool
payload_verdict [] hw m = true
payload_verdict (b ∷ bs) hw m =
    let payload = b ∷ bs in
    if ltb (length payload) 20
    then true
    else if nat_beq (b / 16) 4
    then verdict_of (lookup (route_key (address_at 12 payload) (address_at 16 payload)) m.routes) hw
    else true

-- The verdict that is set, or `none` for an attribute without a packet.
abbrev pub hook_func : Attribute → Manager → Option Bool
hook_func attr m = elim attr.packet_id [
  | none ↦ none
  | some id ↦ elim attr.payload [
    | none ↦ none
    | some payload ↦ some (payload_verdict payload attr.hw_addr m)
  ]
]
